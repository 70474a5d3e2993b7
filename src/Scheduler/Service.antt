-- ===== src/Scheduler/Service.antt =====
-- src/scheduler.rs: the schedules that the scheduler holds, and the jobs that it queues.
-- The channel to the executor is the list of all messages sent so far: a sender waits while the
-- channel is full, so that its capacity only delays.
pub mod Queueing
pub mod Rescheduling
pub mod Holding
pub mod Reloading
pub mod Broken
pub mod Calls
pub mod Keeping
pub mod Ticking
mod Tests
use rbackup.Base.{
  ℕ, String, Bool, true, false, Option, none, some, List, [], ◌∷◌, ◌++◌, unwrap_or, int_eq,
  if◌then◌else◌,
}
use rbackup.Base.Int.{ℤ}
use rbackup.Base.HashMap
use rbackup.Base.HashMap.{HashMap}
use rbackup.Error.{Result, ok, err, AppError, job_not_found}
use rbackup.Models.{DateTime, Uuid, Schedule}
use rbackup.External.{Externals}
use rbackup.Database.World.{World, Stateful, pure, fail, from_result, ◌>>=◌, ◌>>◌, attempt, utc_now}
use rbackup.Database.World
use rbackup.Database.Reads.{get_schedules_for_device}
use rbackup.Database.Writes.{update_schedule_last_run}
use rbackup.Scheduler.ScheduleCalc.{calculate_next_run, is_due}

pub record JobExecution : Type 0 where
  pub job_id : Uuid
  pub triggered_by : String

-- `Scheduler`, with the messages sent over `job_queue_tx` and whether the receiver is still there.
pub record Scheduler (Json : Type 0) : Type 0 where
  pub device_id : String
  pub schedules : HashMap ℤ (Schedule Json)
  pub sent : List JobExecution
  pub receiver_open : Bool

-- The scheduler and the world that it shares with the rest of the program.
pub record App (Json : Type 0) : Type 0 where
  pub world : World Json
  pub scheduler : Scheduler Json

module _ (X : Externals) where
  abbrev pub SchedulerAction : Type 0 → Type 0
  SchedulerAction A = Stateful (App X.json.Json) X.SqlxError A

  -- A call that does not touch the scheduler's own state.
  abbrev pub lift : {A : Type 0} → World.Action X A → SchedulerAction A
  lift m app = let (r, world') = m app.world in (r, record app { world = world' })

  abbrev pub on_schedules :
      (HashMap ℤ (Schedule X.json.Json) → HashMap ℤ (Schedule X.json.Json))
      → SchedulerAction (Unit {0})
  on_schedules f app = (
    ok tt,
    record app { scheduler = record app.scheduler { schedules = f app.scheduler.schedules } },
  )

  -- `job_queue_tx.send(execution).await.map_err(..)`
  unfoldable pub send : JobExecution → SchedulerAction (Unit {0})
  send execution app =
      if app.scheduler.receiver_open
      then (
        ok tt,
        record app {
          scheduler = record app.scheduler { sent = app.scheduler.sent ++ (execution ∷ []) };
        },
      )
      else (err (AppError.scheduler (job_not_found X.channel_closed)), app)

  -- The body of the loop of `reload_schedules` where a schedule has no next run.
  unfoldable pub load_without_next_run :
      Schedule X.json.Json → DateTime → SchedulerAction (Unit {0})
  load_without_next_run schedule now = do
    next_run ← from_result (calculate_next_run X.cron schedule schedule.last_run_at now)
    attempt
        (lift (
          update_schedule_last_run X schedule.job_id (unwrap_or schedule.last_run_at now)
            (some next_run)))
        λ _.
          on_schedules
            (HashMap.insert schedule.id (record schedule { next_run_at = some next_run }))

  unfoldable pub load_schedule : Schedule X.json.Json → SchedulerAction (Unit {0})
  load_schedule schedule = do
    now ← lift (utc_now X)
    elim schedule.next_run_at [
      | none ↦ load_without_next_run schedule now
      | some next_run ↦ on_schedules (HashMap.insert schedule.id schedule)
    ]

  unfoldable pub load_schedules : List (Schedule X.json.Json) → SchedulerAction (Unit {0})
  load_schedules [] = pure tt
  load_schedules (schedule ∷ rest) = do load_schedule schedule; load_schedules rest

  unfoldable pub reload_schedules : SchedulerAction (Unit {0})
  reload_schedules app =
      (do
        db_schedules ← lift (get_schedules_for_device X app.scheduler.device_id)
        on_schedules (λ _. [])
        load_schedules db_schedules)
        app

  -- What `queue_job` sets in the schedule that it holds.
  unfoldable pub mark_run : DateTime → DateTime → Schedule X.json.Json → Schedule X.json.Json
  mark_run now next_run s = record s { last_run_at = some now; next_run_at = some next_run }

  -- `queue_job` from the result of `calculate_next_run` on.
  unfoldable pub store_next_run :
      Schedule X.json.Json → DateTime → Result X.SqlxError DateTime → SchedulerAction (Unit {0})
  store_next_run schedule now (err e) = fail e
  store_next_run schedule now (ok next_run) = do
    lift (update_schedule_last_run X schedule.job_id now (some next_run))
    on_schedules (HashMap.modify schedule.id (mark_run now next_run))

  -- `queue_job` from the sent message on.
  unfoldable pub reschedule : Schedule X.json.Json → SchedulerAction (Unit {0})
  reschedule schedule = do
    now ← lift (utc_now X)
    store_next_run schedule now (calculate_next_run X.cron schedule (some now) now)

  abbrev pub execution_of : Schedule X.json.Json → JobExecution
  execution_of schedule = record { job_id = schedule.job_id; triggered_by = "schedule" }

  unfoldable pub queue_job : Schedule X.json.Json → SchedulerAction (Unit {0})
  queue_job schedule = do send (execution_of schedule); reschedule schedule

  -- The loop of `check_schedules`: an error of `queue_job` is logged and the loop goes on.
  unfoldable pub check_each : DateTime → List (Schedule X.json.Json) → SchedulerAction (Unit {0})
  check_each now [] = pure tt
  check_each now (schedule ∷ rest) =
      let skip = check_each now rest in
      let queue = attempt (queue_job schedule) (λ _. check_each now rest) in
      if schedule.enabled then (if is_due schedule now then queue else skip) else skip

  unfoldable pub check_schedules : SchedulerAction (Unit {0})
  check_schedules = do
    now ← lift (utc_now X)
    (λ app. check_each now (HashMap.values app.scheduler.schedules) app)

  unfoldable pub trigger_manual_backup : Uuid → SchedulerAction (Unit {0})
  trigger_manual_backup job_id = send (record { job_id = job_id; triggered_by = "manual" })
