-- ===== src/Scheduler/MissedRuns/Tests.antt =====
-- The cases of the source's own tests, and the theorems at concrete schedules.
use rbackup.Base.{◌-◌, ◌≡◌, refl, String, true, false, none, some, arith, string_eq}
use rbackup.Base.Int.{pos, ◌+ℤ◌, ◌-ℤ◌}
use rbackup.Scheduler.MissedRuns.{is_run_missed, count_missed_interval_runs}
use rbackup.Scheduler.MissedRuns.Counting.{runs_up_to_now, count_missed-runs_up_to_now}
use rbackup.Samples.{hourly, clock, interval_schedule, cron_schedule}

within_grace :
    is_run_missed
      (record interval_schedule { next_run_at = some (clock 11 57) })
      (clock 12 0)
      (some (pos 5))
    ≡ false
unfolding is_run_missed
within_grace = refl

outside_grace :
    is_run_missed (record interval_schedule { next_run_at = some (clock 11 50) }) (clock 12 0) none
    ≡ true
unfolding is_run_missed
outside_grace = refl

two_hours : count_missed_interval_runs interval_schedule (some (clock 10 0)) (clock 12 0) ≡ 1
unfolding count_missed_interval_runs string_eq
two_hours = refl

five_hours : count_missed_interval_runs interval_schedule (some (clock 7 0)) (clock 12 0) ≡ 4
unfolding count_missed_interval_runs string_eq
five_hours = refl

half_an_hour : count_missed_interval_runs interval_schedule (some (clock 11 30)) (clock 12 0) ≡ 0
unfolding count_missed_interval_runs string_eq
half_an_hour = refl

not_an_interval : count_missed_interval_runs cron_schedule (some (clock 7 0)) (clock 12 0) ≡ 0
unfolding count_missed_interval_runs string_eq
not_an_interval = refl

count_missed-runs_up_to_now_example :
    count_missed_interval_runs interval_schedule (some (clock 7 0)) (clock 12 0)
    ≡ runs_up_to_now String hourly interval_schedule (clock 12 0) 18000 (clock 7 0) - 1
unfolding ◌+ℤ◌ ◌-ℤ◌
count_missed-runs_up_to_now_example =
    count_missed-runs_up_to_now String hourly interval_schedule (clock 12 0) (some (clock 7 0)) 3600
      18000 (clock 7 0) (omega arith) refl refl refl (omega arith) (omega arith)

ten_minutes_late :
    is_run_missed (record interval_schedule { next_run_at = some (clock 11 50) }) (clock 12 0) none
    ≡ true
unfolding is_run_missed
ten_minutes_late = refl
