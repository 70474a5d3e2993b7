-- ===== src/Serving/Message.antt =====
-- What becomes of a message that waits in the channel.
use mathlib.Core.List.{append-nil}
use rbackup.Base.{
  ℕ, zero, suc, ◌+◌, ◌≤◌, ◌≡◌, refl, arith, sym, ap, subst, ◌∙◌, List, [], ◌∷◌, ◌++◌, none, some,
  Option, true, false, inl, inr, int_eq,
}
use rbackup.Base.Int.{pos}
use rbackup.Error.{Result, ok}
use rbackup.Models.{BackupJob, Run, is_running}
use rbackup.Config.Remote.{RemoteConfig}
use rbackup.Backup.Restic.{ResticCommand, new}
use rbackup.External.{Externals}
use rbackup.Database.World.{State}
use rbackup.Database.Queries.{IsServed}
use rbackup.Database.Reads.{get_job_by_id}
use rbackup.Database.Writes.{has_references}
use rbackup.Database.Runs.{find_run, IsFresh}
use rbackup.Backup.Execute.{execute_backup}
use rbackup.Backup.Execute.Frame.{triggered_by-execute_backup}
use rbackup.Backup.Execute.Settled.{execute_backup-Settles}
use rbackup.Scheduler.Service.{JobExecution}
use rbackup.Scheduler.Executor.{can_execute, execute_job}
use rbackup.Scheduler.Executor.Sequential.{execute_job-cases}
use rbackup.Serving.{
  fetching, TaskOf, HostOf, advance, left_of, ServingOf, host_of, receive, Move, Moves,
  after_receive, after_work,
}
use rbackup.Serving.Alone.{advance_times, advance_times-execute_job}
use rbackup.Serving.Ownership.Steps.{get_job_by_id-tables}
use rbackup.Serving.Ownership.Reachable.{Moves-IsCovered}
use rbackup.Serving.Draining.Recorded.{settled-not_running}

-- So many steps of the task behind the tasks `before`, and of no other.
pub data WorksAlone (X : Externals) (config : RemoteConfig X.json.Json) (before : List (TaskOf X))
    (s : ServingOf X) : ℕ → ServingOf X → Type 0 where
  not_yet : WorksAlone X config before s 0 s
  and_then :
      {n : ℕ} {t : ServingOf X}
      → WorksAlone X config before s n t
      → (task : TaskOf X) → t.tasks ≡ before ++ (task ∷ [])
      → WorksAlone X config before s (suc n) (after_work X config before task [] t)

module _ (X : Externals) (config : RemoteConfig X.json.Json) where
  -- Steps of the last task, and of no other.
  work_alone :
      (k : ℕ) (before : List (TaskOf X)) (left : Option (TaskOf X)) {s t : ServingOf X} {n : ℕ}
      → WorksAlone X config before s n t
      → t.tasks ≡ before ++ left_of left
      → let (left', host) = advance_times X config k (left, host_of X t) in
        (m : ℕ) × (u : ServingOf X) × WorksAlone X config before s m u
        × (m ≤ n + k)
        × (host_of X u ≡ host)
        × (u.tasks ≡ before ++ left_of left')
        × (u.received ≡ t.received)
  unfolding advance_times
  work_alone zero before left works e = (_, _, works, omega arith, refl, e, refl)
  work_alone (suc k) before none works e = (_, _, works, omega arith, refl, e, refl)
  work_alone (suc k) before (some task) {t} works e =
      let left = (advance X config task (host_of X t)).0 in
      let (m, u, works', bound, host, tasks, received) =
        work_alone k before left (and_then works task e)
          (ap (λ l. before ++ l) (append-nil (left_of left))) in
      (m, u, works', omega (arith, bound), host, tasks, received)

  -- Where all queries are answered, the configuration yields a `restic` command, and the program has
  -- reached a state in which a message waits as the next one: if its job is found, the device is below
  -- the limit, and the job and its device are in the tables, then the program can go on from that very
  -- state, by receiving the message and then by at most 7 steps of the task that it starts and of no
  -- other task. They end with the other tasks as they were and the message as the last one received,
  -- and leave the executor and the database as `execute_job` leaves them when it is called with the
  -- message in that state; the run with the next id is then a run of the job and not "running". The
  -- program was started with no task, and with the sequence of the ids ahead of the table of runs.
  pub message-finished :
      (all_served : IsServed X) (cmd : ResticCommand) {start s : ServingOf X} (m : JobExecution)
      (waiting : List JobExecution) (job : BackupJob X.json.Json) (w : State X)
      → new {SqlxError = X.SqlxError} X.windows X.which config ≡ ok cmd
      → IsFresh start.world.tables
      → start.tasks ≡ []
      → Moves X config start s
      → s.scheduler.sent ≡ s.received ++ (m ∷ waiting)
      → get_job_by_id X m.job_id s.world ≡ (ok (some job), w)
      → can_execute s.executor job.device_id ≡ true
      → has_references X job.id job.device_id w.tables ≡ true
      → Move X config s (after_receive X m s)
        × ((n : ℕ) × (t : ServingOf X) × WorksAlone X config s.tasks (after_receive X m s) n t
            × (n ≤ 7)
            × (host_of X t ≡ (execute_job X config m (host_of X s)).1)
            × (t.tasks ≡ s.tasks)
            × (t.received ≡ s.received ++ (m ∷ []))
            × ((run : Run X.json.Json) × (find_run (pos w.tables.next_run_id) t.world.tables.runs
                  ≡ some run)
                × (is_running run ≡ false)
                × (run.job_id ≡ job.id)))
  message-finished all_served cmd {start} {s} m waiting job w made fresh idle moves next looked_up
        fits known =
      let received = after_receive X m s in
      let (n, u, works, bound, host, tasks, same) =
        work_alone 7 s.tasks (some (fetching m)) {s = received} {t = received} not_yet refl in
      let alone = advance_times-execute_job X config m (host_of X s) in
      let done : host_of X u ≡ (execute_job X config m (host_of X s)).1 =
        host ∙ ap (λ (p : Option (TaskOf X) × HostOf X). p.1) alone in
      let (fresh_now, _) = Moves-IsCovered X config fresh idle moves in
      let fresh_then : IsFresh w.tables =
        subst
          (λ (p : Result X.SqlxError (Option (BackupJob X.json.Json)) × State X).
            IsFresh p.1.tables)
          looked_up (get_job_by_id-tables X m.job_id s.world IsFresh fresh_now) in
      let world : u.world ≡ (execute_backup X job config w).1 =
        elim (execute_job-cases X config m (host_of X s) job w looked_up) [
          | inl (_, (_, backed_up, _)) ↦ ap (λ (h : HostOf X). h.world) done ∙ backed_up
          | inr (full, _) ↦ absurd (cc (sym full ∙ fits))
        ] in
      let (run, found, settled) =
        execute_backup-Settles X all_served job config w fresh_then known cmd made in
      let (_, job_id, _) = triggered_by-execute_backup X job config w run fresh_then found in
      (
        receive m waiting next,
        (
          n,
          u,
          works,
          bound,
          done,
          tasks
              ∙ ap (λ (p : Option (TaskOf X) × HostOf X). s.tasks ++ left_of p.0) alone
              ∙ append-nil s.tasks,
          same,
          (
            run,
            ap (λ (v : State X). find_run (pos w.tables.next_run_id) v.tables.runs) world ∙ found,
            settled-not_running (execute_backup X job config w).0 run settled,
            job_id,
          ),
        ),
      )
