-- ===== src/Serving/Received.antt =====
-- The messages that the executor has received, and the runs that it has recorded for them.
use mathlib.Core.List.{append_assoc}
use rbackup.Base.{
  ℕ, suc, ◌+◌, ◌≤◌, ◌≡◌, refl, sym, ap, subst, ◌∙◌, List, [], ◌∷◌, ◌++◌, none, some, Option, arith,
  length, length-append, int_eq, ◌==◌, Bool,
}
use rbackup.Error.{Result, ok, err}
use rbackup.Models.{Uuid, BackupJob, Run}
use rbackup.Config.Remote.{RemoteConfig}
use rbackup.Backup.Restic.{ResticCommand, new}
use rbackup.External.{Externals}
use rbackup.Database.World.{Tables}
use rbackup.Database.Queries.{query-tables}
use rbackup.Database.Reads.{get_job_by_id}
use rbackup.Database.Writes.{update_where, run_insertion, create_run, apply_update}
use rbackup.Database.Runs.{inserted, run_insertion-inr}
use rbackup.Backup.Execute.Frame.{record_process-keeps}
use rbackup.Scheduler.Service.{JobExecution}
use rbackup.Serving.{
  Task, fetching, checking, marking, creating, completing, starting, recording, TaskOf, HostOf,
  fetched, created, launch, advance, left_of, ServingOf, host_of, app_of, Move, serve, receive,
  work, Moves, none_yet, then_move,
}
use rbackup.Scheduler.Service.Keeping.{perform-sent}
use rbackup.Serving.Frame.{perform-SameForTasks}
use rbackup.Serving.Ownership.Steps.{get_job_by_id-tables}
use rbackup.Serving.Lifecycle.Refinement.{launch-runs}

module _ {Json E : Type 0} where
  -- Whether a task can still record a run, as a number.
  abbrev to_record : Task Json E → ℕ
  to_record (fetching _) = 1
  to_record (checking _ _) = 1
  to_record (marking _ _) = 1
  to_record (creating _ _) = 1
  to_record (starting _ _ _) = 0
  to_record (recording _ _ _ _) = 0
  to_record (completing _ _) = 0

  abbrev all_to_record : List (Task Json E) → ℕ
  all_to_record [] = 0
  all_to_record (task ∷ tasks) = to_record task + all_to_record tasks

  all_to_record-append :
      (xs ys : List (Task Json E)) → all_to_record (xs ++ ys) ≡ all_to_record xs + all_to_record ys
  all_to_record-append [] ys = omega arith
  all_to_record-append (task ∷ xs) ys = omega (arith, all_to_record-append xs ys)

length-update_where :
    {A : Type 0} (test : A → Bool) (change : A → A) (l : List A)
    → length (update_where test change l) ≡ length l
length-update_where test change [] = refl
length-update_where test change (a ∷ l) = omega (arith, length-update_where test change l)

module _ (X : Externals) where
  fetched-to_record :
      (job_id : Uuid) (r : Result X.SqlxError (Option (BackupJob X.json.Json)))
      → all_to_record (left_of (fetched X job_id r)) ≤ 1
  unfolding fetched
  fetched-to_record job_id (err e) = omega arith
  fetched-to_record job_id (ok none) = omega arith
  fetched-to_record job_id (ok (some job)) = omega arith

  created-to_record :
      (job_id : Uuid) (job : BackupJob X.json.Json) (r : Result X.SqlxError _)
      → to_record (created X job_id job r) ≡ 0
  unfolding created
  created-to_record job_id job (ok run_id) = refl
  created-to_record job_id job (err e) = refl

  launch-to_record :
      (job_id : Uuid) (job : BackupJob X.json.Json) (run_id : _)
      (made : Result X.SqlxError ResticCommand) (host : HostOf X)
      → all_to_record (left_of (launch X job_id job run_id made host).0) ≡ 0
  unfolding launch
  launch-to_record job_id job run_id (ok cmd) host = refl
  launch-to_record job_id job run_id (err e) host = refl

  length-create_run :
      (job_id : Uuid) (device_id : _) (w : _)
      → length (create_run X job_id device_id "manual" w).1.tables.runs ≤ suc (length w.tables.runs)
  unfolding create_run
  length-create_run job_id device_id w =
      query-tables X (run_insertion X job_id device_id "manual") w
        (λ t. length t.runs ≤ suc (length w.tables.runs)) (omega arith)
        λ id t e.
          let now = X.server_clock w.queries in
          let (_, t_is) = run_insertion-inr X job_id device_id "manual" now w.tables id t e in
          subst (λ (s : Tables X.json.Json). length s.runs ≤ suc (length w.tables.runs)) (sym t_is)
            (omega (
              arith,
              length-append w.tables.runs (inserted X job_id device_id "manual" now w.tables ∷ []),
            ))

  -- A step adds a row only where it takes away a task that can record one.
  advance-to_record :
      (config : RemoteConfig X.json.Json) (task : TaskOf X) (host : HostOf X)
      → let (left, host') = advance X config task host in
        all_to_record (left_of left) + length host'.world.tables.runs
        ≤ to_record task + length host.world.tables.runs
  unfolding advance
  advance-to_record config (fetching m) host = omega (
    arith,
    fetched-to_record m.job_id (get_job_by_id X m.job_id host.world).0,
    get_job_by_id-tables X m.job_id host.world (λ t. length t.runs ≡ length host.world.tables.runs)
        refl,
  )
  advance-to_record config (checking job_id job) host = ground arith
  advance-to_record config (marking job_id job) host = omega arith
  advance-to_record config (creating job_id job) host = omega (
    arith,
    created-to_record job_id job (create_run X job.id job.device_id "manual" host.world).0,
    length-create_run job.id job.device_id host.world,
  )
  advance-to_record config (starting job_id job run_id) host =
      let made = new {SqlxError = X.SqlxError} X.windows X.which config in
      omega (
        arith,
        launch-to_record job_id job run_id made host,
        ap (λ (t : Tables X.json.Json). length t.runs) (launch-runs X job_id job run_id made host),
      )
  advance-to_record config (recording job_id job run_id r) host = omega (
    arith,
    record_process-keeps X run_id (λ t. length t.runs ≡ length host.world.tables.runs)
        (λ u t final e.
          length-update_where (λ (row : Run X.json.Json). row.id == run_id) (apply_update X u)
            t.runs
          ∙ e)
        r host.world refl,
  )
  advance-to_record config (completing job_id job) host = omega arith

module _ (X : Externals) (config : RemoteConfig X.json.Json) where
  -- What is received was sent, in the same order.
  abbrev IsPrefix : ServingOf X → Type 0
  IsPrefix s = (waiting : List JobExecution) × (s.scheduler.sent ≡ s.received ++ waiting)

  Move-IsPrefix : {s t : ServingOf X} → Move X config s t → IsPrefix s → IsPrefix t
  Move-IsPrefix (serve {s} call) (waiting, h) =
      let ((more, e), _) = perform-sent X call (app_of X s) in
      (waiting ++ more, e ∙ ap (λ l. l ++ more) h ∙ append_assoc s.received waiting more)
  Move-IsPrefix (receive {s} execution waiting oldest) h =
      (waiting, oldest ∙ sym (append_assoc s.received (execution ∷ []) waiting))
  Move-IsPrefix (work before task later here) h = h

  -- The rows of a state and those that its tasks can still record, against the messages.
  abbrev recorded : ServingOf X → ℕ
  recorded s = all_to_record s.tasks + length s.world.tables.runs

  Move-recorded :
      {s t : ServingOf X}
      → Move X config s t
      → recorded t + length s.received ≤ recorded s + length t.received
  Move-recorded (serve {s} call) =
      omega (arith, ap length (perform-SameForTasks X call (app_of X s)).0)
  Move-recorded (receive {s} execution waiting oldest) = omega (
    arith,
    all_to_record-append s.tasks (fetching execution ∷ []),
    length-append s.received (execution ∷ []),
  )
  Move-recorded (work {s} before task later here) =
      let left = left_of (advance X config task (host_of X s)).0 in
      omega (
        arith,
        ap all_to_record here,
        all_to_record-append before (task ∷ later),
        all_to_record-append before (left ++ later),
        all_to_record-append left later,
        advance-to_record X config task (host_of X s),
      )

  Moves-recorded :
      {start s : ServingOf X}
      → Moves X config start s
      → IsPrefix start
      → IsPrefix s × (recorded s + length start.received ≤ recorded start + length s.received)
  Moves-recorded none_yet h = (h, omega arith)
  Moves-recorded (then_move before last) h =
      let (h', bound) = Moves-recorded before h in
      (Move-IsPrefix last h', omega (arith, bound, Move-recorded last))

  -- From a start with no task at which nothing was received, and whatever becomes of the queries: what
  -- the executor has received is the first part of what was sent, in the order in which it was sent,
  -- and there are at most as many new runs in the table as messages were received.
  pub length-runs_bound :
      {start s : ServingOf X}
      → start.tasks ≡ []
      → start.received ≡ []
      → Moves X config start s
      → ((waiting : List JobExecution) × (s.scheduler.sent ≡ s.received ++ waiting))
        × (length s.world.tables.runs ≤ length start.world.tables.runs + length s.received)
  length-runs_bound {start} idle new_queue before =
      let (h, bound) =
        Moves-recorded before
          (start.scheduler.sent, ap (λ l. l ++ start.scheduler.sent) (sym new_queue)) in
      (h, omega (arith, bound, ap all_to_record idle, ap length new_queue))
