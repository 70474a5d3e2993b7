-- ===== src/Samples.antt =====
-- Concrete values for the tests of all parts: a cron library whose schedules run every hour, JSON
-- values, one schedule of each kind, and instants around noon.
pub mod Program
use rbackup.Base.{
  ℕ, ◌+◌, ◌*◌, ◌≡◌, String, ◌⊎◌, inl, inr, true, Option, none, some, List, arith, ◌==◌, string_eq,
  if◌then◌else◌,
}
use rbackup.Base.Int.{ℤ, pos, ◌+ℤ◌, int_laws}
use rbackup.Models.{DateTime, Schedule}
use rbackup.Scheduler.ScheduleCalc.{Cron, IsLater, nanos}

abbrev pub hourly : Cron
hourly = record {
  CronSchedule = Unit {0};
  from_str = λ expr. if expr == "0 0 * * * *" then inr tt else inl "unexpected expression";
  next_after = λ _ now. some (now +ℤ pos (3600 * nanos));
}

pub hourly-IsLater : IsLater hourly
hourly-IsLater s now t h =
    let e : now +ℤ pos (3600 * nanos) ≡ t = ground arith in rw (← e) (omega int_laws)

pub data SampleJson : Type 0 where
  empty : SampleJson
  text : String → SampleJson
  texts : List String → SampleJson

-- `clock h m` is the instant `h` hours and `m` minutes into the first day.
abbrev pub clock : ℕ → ℕ → DateTime
clock h m = pos ((h * 60 + m) * 60 * nanos)

abbrev pub interval_schedule : Schedule SampleJson
interval_schedule = record {
  id = pos 1;
  job_id = 7;
  schedule_type = "interval";
  cron_expression = none;
  interval_seconds = some (pos 3600);
  enabled = true;
  last_run_at = none;
  next_run_at = none;
  created_at = pos 0;
  updated_at = pos 0;
  metadata = empty;
}

abbrev pub cron_schedule : Schedule SampleJson
cron_schedule = record {
  id = pos 2;
  job_id = 7;
  schedule_type = "cron";
  cron_expression = some "0 * * * *";
  interval_seconds = none;
  enabled = true;
  last_run_at = none;
  next_run_at = none;
  created_at = pos 0;
  updated_at = pos 0;
  metadata = empty;
}
