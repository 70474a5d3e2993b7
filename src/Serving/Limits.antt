-- ===== src/Serving/Limits.antt =====
-- The executor's locks in the whole program, against the tasks of Scheduler/Executor/Interleaving.
use mathlib.Core.List.{append_assoc, append-nil}
use rbackup.Base.{
  ◌≡◌, refl, sym, ap, subst, ◌∙◌, List, [], ◌∷◌, ◌++◌, none, some, Option, Bool, true, false, inl,
  inr, ◌⊎◌, if◌then◌else◌, string_eq,
}
use rbackup.Base.Int.{ℤ}
use rbackup.Error.{Result, ok, err}
use rbackup.Models.{Uuid, BackupJob}
use rbackup.Config.Remote.{RemoteConfig}
use rbackup.Backup.Restic.{ResticCommand, new}
use rbackup.External.{Externals}
use rbackup.Database.Reads.{get_job_by_id}
use rbackup.Database.Writes.{create_run}
use rbackup.Scheduler.Executor.{JobExecutor, can_execute}
use rbackup.Scheduler.Executor.Interleaving.{
  admitted, backing_up, Job, at, System, system, Step, Run, step, start,
}
use rbackup.Scheduler.Executor.Interleaving
use rbackup.Serving.{
  Task, Serving, fetching, checking, marking, creating, completing, starting, recording, TaskOf,
  HostOf, fetched, created, launch, advance, left_of, ServingOf, host_of, Move, serve, receive,
  work, Moves, none_yet, then_move,
}

module _ {Json E : Type 0} where
  -- What the limit sees of a task: nothing before its job is found.
  abbrev pub seen : Task Json E → List Job
  seen (fetching _) = []
  seen (checking job_id job) = at Interleaving.checking job.device_id job_id ∷ []
  seen (marking job_id job) = at admitted job.device_id job_id ∷ []
  seen (creating job_id job) = at backing_up job.device_id job_id ∷ []
  seen (starting job_id job _) = at backing_up job.device_id job_id ∷ []
  seen (recording job_id job _ _) = at backing_up job.device_id job_id ∷ []
  seen (completing job_id job) = at backing_up job.device_id job_id ∷ []

  abbrev pub all_seen : List (Task Json E) → List Job
  all_seen [] = []
  all_seen (task ∷ tasks) = seen task ++ all_seen tasks

  all_seen-append : (xs ys : List (Task Json E)) → all_seen (xs ++ ys) ≡ all_seen xs ++ all_seen ys
  all_seen-append [] ys = refl
  all_seen-append (task ∷ xs) ys =
      ap (λ l. seen task ++ l) (all_seen-append xs ys)
      ∙ sym (append_assoc (seen task) (all_seen xs) (all_seen ys))

-- The locks' view of the program.
abbrev pub view : {Json E : Type 0} → Serving Json E → System
view s = system s.executor (all_seen s.tasks)

-- No step, or one.
abbrev AtMostOneStep : System → System → Type 0
AtMostOneStep a b = (b ≡ a) ⊎ Step a b

extend : {begin a b : System} → Run begin a → AtMostOneStep a b → Run begin b
extend run (inl same) = subst (Run _) (sym same) run
extend run (inr last) = step run last

module _ (X : Externals) (before later : List Job) where
  abbrev around : List Job → JobExecutor → System
  around middle e = system e (before ++ (middle ++ later))

  found-step :
      (job_id : Uuid) (r : Result X.SqlxError (Option (BackupJob X.json.Json))) (e : JobExecutor)
      → AtMostOneStep (around [] e) (around (all_seen (left_of (fetched X job_id r))) e)
  unfolding fetched
  found-step job_id (err e') e = inl refl
  found-step job_id (ok none) e = inl refl
  found-step job_id (ok (some job)) e = inr (Step.spawn before later job.device_id job_id)

  created-same :
      (job_id : Uuid) (job : BackupJob X.json.Json) (r : Result X.SqlxError ℤ)
      → seen (created X job_id job r) ≡ at backing_up job.device_id job_id ∷ []
  unfolding created
  created-same job_id job (ok run_id) = refl
  created-same job_id job (err e) = refl

  launch-same :
      (job_id : Uuid) (job : BackupJob X.json.Json) (run_id : ℤ)
      (made : Result X.SqlxError ResticCommand) (host : HostOf X)
      → let (left, host') = launch X job_id job run_id made host in
        around (all_seen (left_of left)) host'.executor
        ≡ around (at backing_up job.device_id job_id ∷ []) host.executor
  unfolding launch
  launch-same job_id job run_id (ok cmd) host = refl
  launch-same job_id job run_id (err e) host = refl

  checked-step :
      (free : Bool) (job_id : Uuid) (job : BackupJob X.json.Json) (e : JobExecutor)
      → can_execute e job.device_id ≡ free
      → AtMostOneStep (around (at Interleaving.checking job.device_id job_id ∷ []) e) (
          around
            (all_seen (left_of {A = TaskOf X} (if free then some (marking job_id job) else none)))
            e)
  checked-step true job_id job e h = inr (Step.admit before later job.device_id job_id h)
  checked-step false job_id job e h = inr (Step.skip before later job.device_id job_id h)

  advance-step :
      (config : RemoteConfig X.json.Json) (task : TaskOf X) (host : HostOf X)
      → let (left, host') = advance X config task host in
        AtMostOneStep
          (around (seen task) host.executor)
          (around (all_seen (left_of left)) host'.executor)
  unfolding advance
  advance-step config (fetching m) host =
      found-step m.job_id (get_job_by_id X m.job_id host.world).0 host.executor
  advance-step config (checking job_id job) host =
      checked-step (can_execute host.executor job.device_id) job_id job host.executor refl
  advance-step config (marking job_id job) host = inr (Step.mark before later job.device_id job_id)
  advance-step config (creating job_id job) host = inl (
      ap (λ l. around (l ++ []) host.executor)
        (created-same job_id job (create_run X job.id job.device_id "manual" host.world).0))
  advance-step config (starting job_id job run_id) host =
      inl (launch-same job_id job run_id (new X.windows X.which config) host)
  advance-step config (recording job_id job run_id r) host = inl refl
  advance-step config (completing job_id job) host =
      inr (Step.complete before later job.device_id job_id)

module _ (X : Externals) (config : RemoteConfig X.json.Json) where
  view-middle :
      (e : JobExecutor) (xs ys zs : List (TaskOf X))
      → system e (all_seen (xs ++ (ys ++ zs)))
        ≡ around X (all_seen xs) (all_seen zs) (all_seen ys) e
  view-middle e xs ys zs =
      ap (system e)
        (all_seen-append xs (ys ++ zs) ∙ ap (λ l. all_seen xs ++ l) (all_seen-append ys zs))

  Move-step : {s t : ServingOf X} → Move X config s t → AtMostOneStep (view s) (view t)
  Move-step (serve call) = inl refl
  Move-step (receive {s} execution waiting oldest) = inl (
      ap (system s.executor)
        (all_seen-append s.tasks (fetching execution ∷ []) ∙ append-nil (all_seen s.tasks)))
  Move-step (work {s} before task later here) =
      let (left, host) = advance X config task (host_of X s) in
      subst
        (λ a. AtMostOneStep a (system host.executor (all_seen (before ++ (left_of left ++ later)))))
        (sym (
          ap (λ l. system s.executor (all_seen l)) here
          ∙ view-middle s.executor before (task ∷ []) later
          ∙ ap (λ l. around X (all_seen before) (all_seen later) l s.executor)
              (append-nil (seen task))))
        (subst (AtMostOneStep (around X (all_seen before) (all_seen later) (seen task) s.executor))
          (sym (view-middle host.executor before (left_of left) later))
          (advance-step X (all_seen before) (all_seen later) config task (host_of X s)))

  -- The program refines the interleavings of the executor's tasks: what it does from a start with no
  -- task is a run of them, whatever the scheduler does and whatever becomes of the queries, where a
  -- task is seen from its found job on.
  pub Moves-Run :
      {begin s : ServingOf X}
      → begin.tasks ≡ []
      → Moves X config begin s
      → Run (system begin.executor []) (view s)
  Moves-Run {begin} idle none_yet =
      subst (λ l. Run (system begin.executor []) (system begin.executor (all_seen l))) (sym idle)
        Run.idle
  Moves-Run idle (then_move before last) = extend (Moves-Run idle before) (Move-step last)
