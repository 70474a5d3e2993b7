-- ===== src/Scheduler/Executor/Sequential.antt =====
-- The execution of one job while no other task acts.
use rbackup.Base.{
  ◌≡◌, refl, sym, ap, subst, ◌∙◌, ◌⊎◌, inl, inr, String, true, false, Option, none, some,
  Bool-cases, ◌==◌, string_eq, arith, if◌then◌else◌,
}
use rbackup.Base.HashMap
use rbackup.Error.{Result, ok}
use rbackup.Models.{Uuid, BackupJob}
use rbackup.Config.Remote.{RemoteConfig}
use rbackup.External.{Externals}
use rbackup.Database.World.{State, resume}
use rbackup.Database.Reads.{get_job_by_id}
use rbackup.Backup.Execute.{execute_backup}
use rbackup.Scheduler.Service.{JobExecution}
use rbackup.Scheduler.Executor.{
  JobExecutor, can_execute, mark_running, mark_completed, Host, run_admitted, run_found,
  execute_job,
}
use rbackup.Scheduler.Executor.Limit.{get-mark_running, get-mark_completed}

module _ (X : Externals) (config : RemoteConfig X.json.Json) where
  -- What one admitted job leaves: the world after its backup, and the other devices' entries.
  abbrev pub IsExecuted :
      BackupJob X.json.Json
      → State X
      → Host X.json.Json
      → Result X.SqlxError (Unit {0}) × Host X.json.Json
      → Type 0
  IsExecuted job w host (r, host') =
      (r ≡ ok tt)
      × (host'.world ≡ (execute_backup X job config w).1)
      × ((d : String)
          → HashMap.get d host'.executor.running_jobs
            ≡ (if d == job.device_id then none else HashMap.get d host.executor.running_jobs))

  get-mark_both :
      (d device_id : String) (job_id : Uuid) (self : JobExecutor)
      → HashMap.get d (mark_completed device_id (mark_running device_id job_id self)).running_jobs
        ≡ (if d == device_id then none else HashMap.get d self.running_jobs)
  get-mark_both d device_id job_id self = ground (
    arith,
    get-mark_completed d device_id (mark_running device_id job_id self),
    get-mark_running d device_id job_id self,
  )

  run_admitted-IsExecuted :
      (job_id : Uuid) (job : BackupJob X.json.Json) (w : State X) (host : Host X.json.Json)
      → IsExecuted job w host (run_admitted X config job_id job (record host { world = w }))
  unfolding run_admitted
  run_admitted-IsExecuted job_id job w host =
      (refl, refl, λ d. get-mark_both d job.device_id job_id host.executor)

  after_look_up :
      (execution : JobExecution) (host : Host X.json.Json) (found : Option (BackupJob X.json.Json))
      (w : State X)
      → get_job_by_id X execution.job_id host.world ≡ (ok found, w)
      → execute_job X config execution host
        ≡ run_found X config execution.job_id found (record host { world = w })
  unfolding execute_job
  after_look_up execution host found w h =
      ap
        (λ (p : Result X.SqlxError (Option (BackupJob X.json.Json)) × State X).
          resume (p.0, record host { world = p.1 }) (run_found X config execution.job_id))
        h

  -- Where the job is found and its device is below the limit, the execution runs its backup, ends
  -- without an error whatever becomes of that, and frees the device; other devices are as before.
  -- Where the device is at the limit, it ends without an error too, and runs and changes nothing.
  pub execute_job-cases :
      (execution : JobExecution) (host : Host X.json.Json) (job : BackupJob X.json.Json)
      (w : State X)
      → get_job_by_id X execution.job_id host.world ≡ (ok (some job), w)
      → ((can_execute host.executor job.device_id ≡ true)
          × IsExecuted job w host (execute_job X config execution host))
        ⊎ ((can_execute host.executor job.device_id ≡ false)
            × (execute_job X config execution host ≡ (ok tt, record host { world = w })))
  unfolding run_found
  execute_job-cases execution host job w h =
      let looked = after_look_up execution host (some job) w h in
      elim (Bool-cases (can_execute host.executor job.device_id)) [
        | inl fits ↦ inl (
          fits,
          subst (IsExecuted job w host) (sym looked)
              (rw fits (run_admitted-IsExecuted execution.job_id job w host)),
        )
        | inr full ↦ inr (full, looked ∙ rw full refl)
      ]
