-- ===== src/Scheduler/ScheduleCalc/Tests.antt =====
-- The cases of the source's own tests, and the theorems at concrete schedules.
use rbackup.Base.{◌≡◌, ◌↔◌, refl, String, true, Option, none, some, string_eq}
use rbackup.Base.Int.{negsuc, ◌+ℤ◌}
use rbackup.Base.Decimal.{print_ℤ}
use rbackup.Error.{Result, ok, err, AppError, invalid_interval}
use rbackup.Models.{DateTime, Schedule}
use rbackup.Scheduler.ScheduleCalc.{calculate_next_run, is_due}
use rbackup.Scheduler.ScheduleCalc.NextRun.{NextRun, calculate_next_run_iff}
use rbackup.Samples.{hourly, SampleJson, clock, interval_schedule, cron_schedule}

next : Schedule SampleJson → Option DateTime → DateTime → Result String DateTime
unfolding calculate_next_run string_eq ◌+ℤ◌ print_ℤ
next = calculate_next_run hourly

no_last_run : next interval_schedule none (clock 12 0) ≡ ok (clock 13 0)
unfolding next
no_last_run = refl

with_last_run : next interval_schedule (some (clock 10 0)) (clock 12 0) ≡ ok (clock 11 0)
unfolding next
with_last_run = refl

by_cron_expression : next cron_schedule (some (clock 10 0)) (clock 12 0) ≡ ok (clock 13 0)
unfolding next
by_cron_expression = refl

negative_interval :
    next (record interval_schedule { interval_seconds = some (negsuc 99) }) none (clock 12 0)
    ≡ err (AppError.scheduler (invalid_interval "Interval must be positive, got: -100"))
unfolding next
negative_interval = refl

due_without_next_run : is_due interval_schedule (clock 12 0) ≡ true
unfolding is_due
due_without_next_run = refl

calculate_next_run_iff_example :
    (next interval_schedule none (clock 12 0) ≡ ok (clock 13 0))
    ↔ NextRun hourly interval_schedule none (clock 12 0) (clock 13 0)
unfolding next
calculate_next_run_iff_example =
    calculate_next_run_iff hourly interval_schedule none (clock 12 0) (clock 13 0)
