-- ===== src/Scheduler/Service/Ticking/Tests.antt =====
-- Two starts of the loop: one that comes to a check that finds a schedule due, and one that does not
-- come to its first check.
use rbackup.Base.{
  ℕ, ◌+◌, ◌*◌, ◌≤◌, ◌≡◌, refl, String, none, some, [], ◌∷◌, ◌++◌, arith, string_eq, nat_eq, int_eq,
}
use rbackup.Base.Int.{pos, negsuc, ◌≤ℤ◌}
use rbackup.Base.HashMap
use rbackup.Error.{ok, err, AppError, invalid_interval}
use rbackup.Models.{Schedule}
use rbackup.Database.World.{State, query, answer}
use rbackup.Database.Reads.{join_schedules, get_schedules_for_device}
use rbackup.Database.Writes.{update_schedule_last_run}
use rbackup.Scheduler.ScheduleCalc.{nanos, calculate_next_run}
use rbackup.Scheduler.Service.{App, load_without_next_run, load_schedule, load_schedules}
use rbackup.Scheduler.Service.Holding.{IsSound}
use rbackup.Scheduler.Service.Ticking.{new_scheduler, tick_times, start_scheduler}
use rbackup.Scheduler.Service.Ticking.Due.{HasSent, IsUnbounded, tick_times-HasSent}
use rbackup.Scheduler.Service.Broken.{IsBroken, cleared, stopped, start_scheduler-stops}
use rbackup.Samples.{SampleJson, clock, interval_schedule, cron_schedule}
use rbackup.Samples.Program.{all_served, tables, world}

-- A schedule that is held and due in an hour.
abbrev planned : Schedule SampleJson
planned = record cron_schedule { next_run_at = some (clock 13 0) }

abbrev waiting : App SampleJson
waiting = record {
  world = world;
  scheduler = record (new_scheduler "laptop") { schedules = (pos 2, planned) ∷ [] };
}

is_sound : IsSound all_served waiting
unfolding HashMap.get
is_sound = (((refl, λ e. cc), tt), (refl, tt))

is_held : HashMap.get (pos 2) waiting.scheduler.schedules ≡ some planned
unfolding HashMap.get int_eq native.Mathlib.Decide.ℕ_discrete
is_held = refl

late_enough : (t n : ℕ) → t ≤ n → pos t ≤ℤ pos ((12 * 3600 + n) * nanos)
late_enough t n h = omega (arith, h)

clock-IsUnbounded : IsUnbounded all_served.clock
clock-IsUnbounded (pos t) = (t, λ n h. late_enough t n h)
clock-IsUnbounded (negsuc t) = (0, λ n h. omega arith)

tick_times-HasSent_example :
    (ticks : ℕ) × HasSent all_served (pos 2) planned waiting (tick_times all_served ticks waiting).1
tick_times-HasSent_example =
    tick_times-HasSent all_served (pos 2) planned (clock 13 0) waiting clock-IsUnbounded refl
      is_sound is_held refl refl

-- A schedule that lacks its interval, behind one that can be loaded.
abbrev broken : Schedule SampleJson
broken = record interval_schedule { id = pos 3; interval_seconds = none }

abbrev starting : App SampleJson
starting = record {
  world = record world {
    tables = record tables { schedules = interval_schedule ∷ broken ∷ cron_schedule ∷ [] };
  };
  scheduler = new_scheduler "laptop";
}

abbrev read : State all_served
read = record starting.world { queries = 1 }

abbrev failure : AppError String
failure = AppError.scheduler (invalid_interval "Interval seconds is missing")

loaded : App SampleJson
loaded = (load_schedules all_served (interval_schedule ∷ []) (cleared all_served starting read)).1

is_read :
    get_schedules_for_device all_served "laptop" starting.world
    ≡ (ok ((interval_schedule ∷ []) ++ (broken ∷ cron_schedule ∷ [])), read)
unfolding get_schedules_for_device join_schedules query answer string_eq nat_eq
is_read = refl

is_loaded :
    load_schedules all_served (interval_schedule ∷ []) (cleared all_served starting read)
    ≡ (ok tt, loaded)
unfolding loaded load_schedules load_schedule load_without_next_run calculate_next_run
    update_schedule_last_run query answer string_eq nat_eq
is_loaded = refl

is_broken :
    IsBroken all_served broken (cron_schedule ∷ []) failure (all_served.clock loaded.world.readings)
unfolding calculate_next_run string_eq
is_broken = (refl, refl)

start_scheduler-stops_example :
    start_scheduler all_served 5 starting ≡ (err failure, stopped all_served loaded)
start_scheduler-stops_example =
    start_scheduler-stops all_served broken (cron_schedule ∷ []) failure (interval_schedule ∷ [])
      starting loaded read 5 is_read is_loaded is_broken
