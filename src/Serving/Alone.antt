-- ===== src/Serving/Alone.antt =====
-- The steps of one task, with no other step in between, are `execute_job`.
use rbackup.Base.{ℕ, zero, suc, ◌≡◌, refl, Bool, true, false, Option, none, some, if◌then◌else◌}
use rbackup.Base.Int.{ℤ}
use rbackup.Error.{Result, ok, err}
use rbackup.Models.{Uuid, BackupJob}
use rbackup.Config.Remote.{RemoteConfig}
use rbackup.Backup.Restic.{ResticCommand, new}
use rbackup.External.{Externals}
use rbackup.Database.World.{State, pure, resume}
use rbackup.Database.Reads.{get_job_by_id}
use rbackup.Database.Writes.{create_run}
use rbackup.Backup.Execute.{
  execute_restic_command, record_process, execute_recorded, execute_backup,
}
use rbackup.Scheduler.Service.{JobExecution}
use rbackup.Scheduler.Executor.{
  can_execute, mark_running, mark_completed, run_admitted, run_found, execute_job,
}
use rbackup.Serving.{fetching, marking, TaskOf, HostOf, fetched, created, launch, advance}

module _ (X : Externals) (config : RemoteConfig X.json.Json) where
  -- So many steps of a task, or fewer if it ends before.
  unfoldable pub advance_times : ℕ → Option (TaskOf X) × HostOf X → Option (TaskOf X) × HostOf X
  advance_times zero p = p
  advance_times (suc n) (none, host) = (none, host)
  advance_times (suc n) (some task, host) = advance_times n (advance X config task host)

  -- The end of a backup in a world, with the device freed.
  abbrev freed : BackupJob X.json.Json → State X → HostOf X → Option (TaskOf X) × HostOf X
  freed job w host =
      (none, record host { world = w; executor = mark_completed job.device_id host.executor })

  launch-alone :
      (job_id : Uuid) (job : BackupJob X.json.Json) (run_id : ℤ)
      (made : Result X.SqlxError ResticCommand) (host : HostOf X)
      → advance_times 2 (launch X job_id job run_id made host)
        ≡ freed job
            (resume
              (made, host.world)
              λ cmd w.
                let (r, w') = execute_restic_command X cmd job w in record_process X run_id r w').1
            host
  unfolding advance_times advance launch
  launch-alone job_id job run_id (ok cmd) host = refl
  launch-alone job_id job run_id (err e) host = refl

  created-alone :
      (job_id : Uuid) (job : BackupJob X.json.Json) (p : Result X.SqlxError ℤ × State X)
      (host : HostOf X)
      → advance_times 3 (some (created X job_id job p.0), record host { world = p.1 })
        ≡ freed job (resume p (execute_recorded X job config)).1 host
  unfolding advance_times advance created execute_recorded
  created-alone job_id job (ok run_id, w) host =
      launch-alone job_id job run_id (new X.windows X.which config) (record host { world = w })
  created-alone job_id job (err e, w) host = refl

  marking-alone :
      (job_id : Uuid) (job : BackupJob X.json.Json) (host : HostOf X)
      → advance_times 5 (some (marking job_id job), host)
        ≡ (none, (run_admitted X config job_id job host).1)
  unfolding advance_times advance run_admitted execute_backup
  marking-alone job_id job host =
      created-alone job_id job (create_run X job.id job.device_id "manual" host.world)
        (record host { executor = mark_running job.device_id job_id host.executor })

  checked-alone :
      (free : Bool) (job_id : Uuid) (job : BackupJob X.json.Json) (host : HostOf X)
      → advance_times 5 (if free then some (marking job_id job) else none, host)
        ≡ (none, (if free then run_admitted X config job_id job host else pure tt host).1)
  unfolding advance_times
  checked-alone true job_id job host = marking-alone job_id job host
  checked-alone false job_id job host = refl

  found-alone :
      (job_id : Uuid) (r : Result X.SqlxError (Option (BackupJob X.json.Json))) (host : HostOf X)
      → advance_times 6 (fetched X job_id r, host)
        ≡ (none, (resume (r, host) (run_found X config job_id)).1)
  unfolding advance_times advance fetched run_found
  found-alone job_id (err e) host = refl
  found-alone job_id (ok none) host = refl
  found-alone job_id (ok (some job)) host =
      checked-alone (can_execute host.executor job.device_id) job_id job host

  -- A task takes at most seven steps, and where no other step comes in between, it ends in the state
  -- that `execute_job` leaves, whatever becomes of its queries.
  pub advance_times-execute_job :
      (execution : JobExecution) (host : HostOf X)
      → advance_times 7 (some (fetching execution), host)
        ≡ (none, (execute_job X config execution host).1)
  unfolding advance_times advance execute_job
  advance_times-execute_job execution host =
      let (r, w) = get_job_by_id X execution.job_id host.world in
      found-alone execution.job_id r (record host { world = w })
