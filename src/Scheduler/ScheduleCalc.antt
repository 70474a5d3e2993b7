-- ===== src/Scheduler/ScheduleCalc.antt =====
-- src/scheduler/schedule_calc.rs: when a schedule runs next, and whether it is due.
pub mod NextRun
pub mod Tests
use rbackup.Base.{
  ℕ, ◌*◌, ◌≡◌, String, ◌<>◌, Bool, true, Option, none, some, ◌⊎◌, inl, inr, List, unwrap_or,
  if◌then◌else◌,
}
use rbackup.Base.Int.{ℤ, pos, ◌+ℤ◌, ◌<ℤ◌, leb_ℤ, scale}
use rbackup.Base.Decimal.{print_ℤ}
use rbackup.Error.{
  Result, ok, err, AppError, SchedulerError, invalid_cron_expression, invalid_interval, and_then,
  ok_or,
}
use rbackup.Models.{DateTime, Schedule, is_cron, is_interval}

-- The `cron` crate: `Schedule::from_str`, whose error is given by its text, and
-- `schedule.after(&now).next()`.
pub record Cron : Type 1 where
  pub CronSchedule : Type 0
  pub from_str : String → String ⊎ CronSchedule
  pub next_after : CronSchedule → DateTime → Option DateTime

-- What the crate documents of `after`: the times that it gives are later than the one given.
abbrev pub IsLater : Cron → Type 0
IsLater c = (s : c.CronSchedule) (now t : DateTime) → c.next_after s now ≡ some t → now <ℤ t

abbrev pub nanos : ℕ
nanos = 1000000000

-- `Duration::seconds`
unfoldable pub seconds : ℤ → ℤ
unfolding scale
seconds n = scale nanos n

module _ {SqlxError : Type 0} (cron : Cron) where
  -- `CronSchedule::from_str(..).map_err(..)?` and the rest of the function.
  parse_and_advance : String ⊎ cron.CronSchedule → DateTime → Result SqlxError DateTime
  parse_and_advance (inl e) now =
      err (AppError.scheduler (invalid_cron_expression ("Failed to parse cron expression: " <> e)))
  parse_and_advance (inr schedule) now =
      ok_or (cron.next_after schedule now)
        (AppError.scheduler (invalid_cron_expression "No next run time"))

module _ {SqlxError Json : Type 0} (cron : Cron) where
  unfoldable pub calculate_next_cron_run : Schedule Json → DateTime → Result SqlxError DateTime
  unfolding parse_and_advance
  calculate_next_cron_run schedule now =
      and_then
        (ok_or schedule.cron_expression
          (AppError.scheduler (invalid_cron_expression "Cron expression is missing")))
        λ cron_expr. parse_and_advance cron (cron.from_str ("0 " <> cron_expr)) now

module _ {SqlxError Json : Type 0} where
  unfoldable pub calculate_next_interval_run :
      Schedule Json → Option DateTime → DateTime → Result SqlxError DateTime
  unfolding seconds
  calculate_next_interval_run schedule last_run now =
      and_then
        (ok_or schedule.interval_seconds
          (AppError.scheduler (invalid_interval "Interval seconds is missing")))
        λ interval_seconds.
          if leb_ℤ interval_seconds (pos 0)
          then err (
              AppError.scheduler
                (invalid_interval ("Interval must be positive, got: " <> print_ℤ interval_seconds)))
          else ok (unwrap_or last_run now +ℤ seconds interval_seconds)

module _ {SqlxError Json : Type 0} (cron : Cron) where
  unfoldable pub calculate_next_run :
      Schedule Json → Option DateTime → DateTime → Result SqlxError DateTime
  unfolding calculate_next_cron_run calculate_next_interval_run is_cron is_interval
  calculate_next_run schedule last_run now =
      if is_cron schedule
      then calculate_next_cron_run cron schedule now
      else if is_interval schedule
      then calculate_next_interval_run schedule last_run now
      else err (
          AppError.scheduler
            (invalid_cron_expression ("Unknown schedule type: " <> schedule.schedule_type)))

module _ {Json : Type 0} where
  unfoldable pub is_due : Schedule Json → DateTime → Bool
  is_due schedule now = elim schedule.next_run_at [
    | some next_run ↦ leb_ℤ next_run now
    | none ↦ true
  ]
