-- ===== src/Scheduler/Executor.antt =====
-- src/scheduler/executor.rs: the jobs that run, by device, and the execution of one queued job.
pub mod Limit
pub mod Sequential
pub mod Interleaving
mod Tests
use rbackup.Base.{
  ℕ, String, Bool, Option, none, some, List, [], length, filter, ltb, ◌==◌, string_eq,
  if◌then◌else◌,
}
use rbackup.Base.HashMap
use rbackup.Base.HashMap.{HashMap}
use rbackup.Error.{Result, ok}
use rbackup.Models.{Uuid, BackupJob}
use rbackup.Config.Remote.{RemoteConfig}
use rbackup.External.{Externals}
use rbackup.Database.World.{World, Stateful, pure, ◌>>=◌, ◌>>◌, attempt}
use rbackup.Database.World
use rbackup.Database.Reads.{get_job_by_id}
use rbackup.Backup.Execute.{execute_backup}
use rbackup.Scheduler.Service.{JobExecution}

-- The parts of `JobExecutor` that change or limit what runs.
pub record JobExecutor : Type 0 where
  pub running_jobs : HashMap String Uuid
  pub max_concurrent_per_device : ℕ

-- `JobExecutor::new`
abbrev pub new_executor : ℕ → JobExecutor
new_executor max_concurrent_per_device = record {
  running_jobs = [];
  max_concurrent_per_device = max_concurrent_per_device;
}

unfoldable pub can_execute : JobExecutor → String → Bool
can_execute self device_id =
    let count = length (filter (λ (dev_id, _). dev_id == device_id) self.running_jobs) in
    ltb count self.max_concurrent_per_device

unfoldable pub mark_running : String → Uuid → JobExecutor → JobExecutor
mark_running device_id job_id self = record self {
  running_jobs = HashMap.insert device_id job_id self.running_jobs;
}

unfoldable pub mark_completed : String → JobExecutor → JobExecutor
mark_completed device_id self = record self {
  running_jobs = HashMap.remove device_id self.running_jobs;
}

-- The executor and the world that it shares with the rest of the program.
pub record Host (Json : Type 0) : Type 0 where
  pub world : World Json
  pub executor : JobExecutor

module _ (X : Externals) where
  abbrev pub HostAction : Type 0 → Type 0
  HostAction A = Stateful (Host X.json.Json) X.SqlxError A

  -- A call that does not touch the executor's own state.
  abbrev pub on_world : {A : Type 0} → World.Action X A → HostAction A
  on_world m host = let (r, world') = m host.world in (r, record host { world = world' })

  abbrev pub on_executor : (JobExecutor → JobExecutor) → HostAction (Unit {0})
  on_executor f host = (ok tt, record host { executor = f host.executor })

  -- `execute_job` from the admission on: a failed backup is logged.
  unfoldable pub run_admitted :
      RemoteConfig X.json.Json → Uuid → BackupJob X.json.Json → HostAction (Unit {0})
  run_admitted config job_id job = do
    on_executor (mark_running job.device_id job_id)
    attempt (on_world (execute_backup X job config))
        λ result. on_executor (mark_completed job.device_id)

  -- `execute_job` from the result of the look-up on.
  unfoldable pub run_found :
      RemoteConfig X.json.Json → Uuid → Option (BackupJob X.json.Json) → HostAction (Unit {0})
  run_found config job_id none host = pure tt host
  run_found config job_id (some job) host =
      if can_execute host.executor job.device_id
      then run_admitted config job_id job host
      else pure tt host

  unfoldable pub execute_job : RemoteConfig X.json.Json → JobExecution → HostAction (Unit {0})
  execute_job config execution = do
    job ← on_world (get_job_by_id X execution.job_id)
    run_found config execution.job_id job
