-- ===== src/Scheduler/MissedRuns.antt =====
-- src/scheduler/missed_runs.rs: schedules that missed their time, and how often.
pub mod Counting
pub mod Window
pub mod Tests
use rbackup.Base.{
  ℕ, ◌-◌, ◌*◌, ◌%◌, ◌^◌, Bool, false, not, Option, none, some, unwrap_or, or_else, if◌then◌else◌,
}
use rbackup.Base.Int.{ℤ, pos, negsuc, pos_part, ◌+ℤ◌, ◌-ℤ◌, ltb_ℤ, scale, quot}
use rbackup.Models.{DateTime, Schedule, is_interval}
use rbackup.Scheduler.ScheduleCalc.{nanos, seconds}

abbrev default_grace_period_minutes : ℤ
default_grace_period_minutes = pos 5

-- `Duration::minutes`
pub minutes : ℤ → ℤ
unfolding scale
minutes n = scale (60 * nanos) n

-- `Duration::num_seconds`: whole seconds, rounded towards zero.
num_seconds : ℤ → ℤ
unfolding quot
num_seconds d = quot d nanos

-- `as usize` of an `i64`, on 64 bits.
as_usize : ℤ → ℕ
as_usize (pos n) = n % 2 ^ 64
as_usize (negsuc n) = 2 ^ 64 - 1 - n % 2 ^ 64

-- The part behind the early returns, for a positive interval and a known last run.
missed_since : ℤ → DateTime → DateTime → ℕ
unfolding seconds num_seconds as_usize quot ◌-ℤ◌
missed_since interval_seconds last_run_time now =
    let elapsed = now -ℤ last_run_time in
    if ltb_ℤ elapsed (seconds interval_seconds)
    then 0
    else as_usize (quot (num_seconds elapsed) (pos_part interval_seconds)) - 1

module _ {Json : Type 0} where
  unfoldable pub is_run_missed : Schedule Json → DateTime → Option ℤ → Bool
  unfolding minutes ◌+ℤ◌
  is_run_missed schedule now grace_period_minutes =
      let grace_period = unwrap_or grace_period_minutes default_grace_period_minutes in
      elim schedule.next_run_at [
        | some next_run ↦ ltb_ℤ (next_run +ℤ minutes grace_period) now
        | none ↦ false
      ]

  unfoldable pub count_missed_interval_runs : Schedule Json → Option DateTime → DateTime → ℕ
  unfolding missed_since is_interval
  count_missed_interval_runs schedule last_run now =
      if not (is_interval schedule) then 0 else elim schedule.interval_seconds [
        | none ↦ 0
        | some s ↦
            if ltb_ℤ (pos 0) s
            then elim (or_else last_run schedule.last_run_at) [
              | none ↦ 0
              | some last_run_time ↦ missed_since s last_run_time now
            ]
            else 0
      ]
