-- ===== src/Scheduler/Service/Ticking.antt =====
-- src/scheduler.rs: `Scheduler::new` and `start`, and what the loop of `start` does sooner or later.
pub mod Held
pub mod Due
mod Tests
use rbackup.Base.{ℕ, zero, suc, String, true, []}
use rbackup.Models.{Schedule}
use rbackup.External.{Externals}
use rbackup.Database.World.{pure, attempt, ◌>>=◌, ◌>>◌}
use rbackup.Scheduler.Service.{Scheduler, SchedulerAction, reload_schedules, check_schedules}

-- `Scheduler::new`: the queue is empty, and the caller holds the receiver.
abbrev pub new_scheduler : {Json : Type 0} → String → Scheduler Json
new_scheduler device_id = record {
  device_id = device_id;
  schedules = [];
  sent = [];
  receiver_open = true;
}

module _ (X : Externals) where
  -- So many rounds of the loop of `start`: an error of a check is logged.
  unfoldable pub tick_times : ℕ → SchedulerAction X (Unit {0})
  tick_times zero = pure tt
  tick_times (suc n) = attempt (check_schedules X) (λ _. tick_times n)

  -- `start` until so many ticks of its timer.
  unfoldable pub start_scheduler : ℕ → SchedulerAction X (Unit {0})
  start_scheduler ticks = do reload_schedules X; tick_times ticks
