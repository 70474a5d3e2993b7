-- ===== src/Serving.antt =====
-- src/main.rs, once `run` has started the scheduler and the executor: the two share the database and
-- the channel. What `tokio::spawn` runs at the same time is a sequence of steps here.
-- A step of a task of the executor ends with its next query, its process, or its next lock. A call of
-- the scheduler is one step: its queries and its map are not touched by a task, and what a task reads
-- and writes in the database is not touched by the scheduler (Serving/Frame).
pub mod Alone
pub mod Frame
pub mod Ownership
pub mod Lifecycle
pub mod Draining
pub mod Limits
pub mod Received
pub mod FromStart
pub mod Message
mod Tests
use rbackup.Base.{ℕ, ◌≡◌, Option, none, some, List, [], ◌∷◌, ◌++◌, if◌then◌else◌}
use rbackup.Base.Int.{ℤ}
use rbackup.Error.{Result, ok, err}
use rbackup.Models.{Uuid, BackupJob}
use rbackup.Config.Local.{LocalConfig}
use rbackup.Config.Remote.{RemoteConfig}
use rbackup.Scheduler.Service.Ticking.{new_scheduler}
use rbackup.Backup.Restic.{ResticCommand, new}
use rbackup.External.{Externals, Output}
use rbackup.Database.World.{World}
use rbackup.Database.Reads.{get_job_by_id}
use rbackup.Database.Writes.{create_run}
use rbackup.Backup.Execute.{execute_restic_command, record_process}
use rbackup.Scheduler.Service.{JobExecution, Scheduler, App}
use rbackup.Scheduler.Service.Calls.{Call, perform}
use rbackup.Scheduler.Executor.{
  JobExecutor, new_executor, Host, can_execute, mark_running, mark_completed, on_world,
}

-- Where a task that runs `execute_job` stands, by what it does next: look the job up, check the
-- limit, mark the device, record the run, start `restic`, store the result, free the device.
pub data Task (Json E : Type 0) : Type 0 where
  fetching : JobExecution → Task Json E
  checking marking creating completing : Uuid → BackupJob Json → Task Json E
  starting : Uuid → BackupJob Json → ℤ → Task Json E
  recording : Uuid → BackupJob Json → ℤ → Result E Output → Task Json E

module _ (X : Externals) where
  abbrev pub TaskOf : Type 0
  TaskOf = Task X.json.Json X.SqlxError

  abbrev pub HostOf : Type 0
  HostOf = Host X.json.Json

  -- After `get_job_by_id`: an error is returned, and a job that is not there is skipped.
  unfoldable pub fetched :
      Uuid → Result X.SqlxError (Option (BackupJob X.json.Json)) → Option TaskOf
  fetched job_id (err e) = none
  fetched job_id (ok none) = none
  fetched job_id (ok (some job)) = some (checking job_id job)

  -- After `create_run`.
  unfoldable pub created : Uuid → BackupJob X.json.Json → Result X.SqlxError ℤ → TaskOf
  created job_id job (ok run_id) = starting job_id job run_id
  created job_id job (err e) = completing job_id job

  -- From the result of `ResticCommand::new` to the end of the process.
  unfoldable pub launch :
      Uuid
      → BackupJob X.json.Json
      → ℤ
      → Result X.SqlxError ResticCommand
      → HostOf
      → Option TaskOf × HostOf
  launch job_id job run_id (err e) host = (some (completing job_id job), host)
  launch job_id job run_id (ok restic_cmd) host =
      let (result, host') = on_world X (execute_restic_command X restic_cmd job) host in
      (some (recording job_id job run_id result), host')

  -- The next step of a task: what is left of it, and the state after it.
  unfoldable pub advance : RemoteConfig X.json.Json → TaskOf → HostOf → Option TaskOf × HostOf
  advance config (fetching execution) host =
      let (result, host') = on_world X (get_job_by_id X execution.job_id) host in
      (fetched execution.job_id result, host')
  advance config (checking job_id job) host =
      (if can_execute host.executor job.device_id then some (marking job_id job) else none, host)
  advance config (marking job_id job) host = (
    some (creating job_id job),
    record host { executor = mark_running job.device_id job_id host.executor },
  )
  advance config (creating job_id job) host =
      let (result, host') = on_world X (create_run X job.id job.device_id "manual") host in
      (some (created job_id job result), host')
  advance config (starting job_id job run_id) host =
      launch job_id job run_id (new X.windows X.which config) host
  advance config (recording job_id job run_id result) host =
      let (_, host') = on_world X (record_process X run_id result) host in
      (some (completing job_id job), host')
  advance config (completing job_id job) host =
      (none, record host { executor = mark_completed job.device_id host.executor })

-- The scheduler, the executor, the messages that the executor has received, and its tasks that have
-- not ended.
pub record Serving (Json E : Type 0) : Type 0 where
  pub world : World Json
  pub scheduler : Scheduler Json
  pub executor : JobExecutor
  pub received : List JobExecution
  pub tasks : List (Task Json E)

-- What is left of a task, as a list.
abbrev pub left_of : {A : Type 0} → Option A → List A
left_of none = []
left_of (some a) = a ∷ []

module _ (X : Externals) where
  abbrev pub ServingOf : Type 0
  ServingOf = Serving X.json.Json X.SqlxError

  -- What `run` starts the tasks with, once it has chosen to serve with this limit.
  abbrev pub begin_serving : LocalConfig → ℕ → World X.json.Json → ServingOf
  begin_serving config max_concurrent world = record {
    world = world;
    scheduler = new_scheduler config.device.id;
    executor = new_executor max_concurrent;
    received = [];
    tasks = [];
  }

  abbrev pub host_of : ServingOf → HostOf X
  host_of s = record { world = s.world; executor = s.executor }

  abbrev pub app_of : ServingOf → App X.json.Json
  app_of s = record { world = s.world; scheduler = s.scheduler }

  abbrev pub after_call : Call → ServingOf → ServingOf
  after_call call s =
      let (_, app) = perform X call (app_of s) in
      record s { world = app.world; scheduler = app.scheduler }

  abbrev pub after_receive : JobExecution → ServingOf → ServingOf
  after_receive execution s = record s {
    received = s.received ++ (execution ∷ []);
    tasks = s.tasks ++ (fetching execution ∷ []);
  }

  abbrev pub after_work :
      RemoteConfig X.json.Json
      → List (TaskOf X)
      → TaskOf X
      → List (TaskOf X)
      → ServingOf
      → ServingOf
  after_work config before task later s =
      let (left, host) = advance X config task (host_of s) in
      record s {
        world = host.world;
        executor = host.executor;
        tasks = before ++ (left_of left ++ later);
      }

  -- A call of the scheduler; `job_queue.recv()` and the spawn of a task for the oldest message that
  -- was not received; or a step of any of the tasks.
  pub data Move (config : RemoteConfig X.json.Json) : ServingOf → ServingOf → Type 0 where
    serve : {s : ServingOf} (call : Call) → Move config s (after_call call s)
    receive :
        {s : ServingOf} (execution : JobExecution) (waiting : List JobExecution)
        → s.scheduler.sent ≡ s.received ++ (execution ∷ waiting)
        → Move config s (after_receive execution s)
    work :
        {s : ServingOf} (before : List (TaskOf X)) (task : TaskOf X) (later : List (TaskOf X))
        → s.tasks ≡ before ++ (task ∷ later)
        → Move config s (after_work config before task later s)

  -- The moves since a start, the last one last.
  pub data Moves (config : RemoteConfig X.json.Json) (start : ServingOf) : ServingOf → Type 0 where
    none_yet : Moves config start start
    then_move : {s t : ServingOf} → Moves config start s → Move config s t → Moves config start t
