-- ===== src/Serving/Lifecycle/Old.antt =====
-- The runs that were in the table when the program was started.
use rbackup.Base.{◌≡◌, refl, ap, [], ◌∷◌, none, some, Option, arith, int_eq}
use rbackup.Base.Int.{ℤ}
use rbackup.Error.{Result, ok, err}
use rbackup.Models.{Run, Uuid, BackupJob}
use rbackup.Config.Remote.{RemoteConfig}
use rbackup.Backup.Restic.{ResticCommand, new}
use rbackup.External.{Externals}
use rbackup.Database.World.{State}
use rbackup.Database.Reads.{get_job_by_id}
use rbackup.Database.Writes.{create_run}
use rbackup.Database.Runs.{find_run, IsFresh, create_run-ok}
use rbackup.Serving.{
  fetching, checking, marking, creating, completing, starting, recording, TaskOf, HostOf, fetched,
  created, launch, advance, left_of, ServingOf, host_of, Move, serve, receive, work, Moves,
  none_yet, then_move,
}
use rbackup.Serving.Ownership.{owns, owners, owners-append, owners-middle}
use rbackup.Serving.Ownership.Reachable.{Moves-IsCovered}
use rbackup.Serving.Lifecycle.Finished.{HasRow, differs_from_next, Move-HasRow}

module _ (X : Externals) (config : RemoteConfig X.json.Json) (id : ℤ) (run : Run X.json.Json) where
  found-owners :
      (job_id : Uuid) (r : Result X.SqlxError (Option (BackupJob X.json.Json)))
      → owners id (left_of (fetched X job_id r)) ≡ 0
  unfolding fetched
  found-owners job_id (err e) = refl
  found-owners job_id (ok none) = refl
  found-owners job_id (ok (some job)) = refl

  launch-owners :
      (job_id : Uuid) (job : BackupJob X.json.Json) (run_id : ℤ)
      (made : Result X.SqlxError ResticCommand) (host : HostOf X)
      → owns {E = X.SqlxError} id (starting job_id job run_id) ≡ 0
      → owners id (left_of (launch X job_id job run_id made host).0) ≡ 0
  unfolding launch
  launch-owners job_id job run_id (ok cmd) host own = omega (arith, own)
  launch-owners job_id job run_id (err e) host own = refl

  created-owners :
      (job_id : Uuid) (job : BackupJob X.json.Json) (w : State X)
      (p : Result X.SqlxError ℤ × State X)
      → create_run X job.id job.device_id "manual" w ≡ p
      → IsFresh w.tables
      → HasRow X config id run w.tables
      → owns id (created X job_id job p.0) ≡ 0
  unfolding created
  created-owners job_id job w (ok run_id, w') e fresh h =
      let (id_is, _, _, _) = create_run-ok X job.id job.device_id "manual" w run_id w' fresh e in
      let other = differs_from_next X config id run w.tables fresh h in ground (arith, other, id_is)
  created-owners job_id job w (err e', w') e fresh h = refl

  -- No task comes to own a run that was in the table before.
  advance-owners :
      (task : TaskOf X) (host : HostOf X)
      → IsFresh host.world.tables
      → owns id task ≡ 0
      → HasRow X config id run host.world.tables
      → owners id (left_of (advance X config task host).0) ≡ 0
  unfolding advance
  advance-owners (fetching m) host fresh own h =
      found-owners m.job_id (get_job_by_id X m.job_id host.world).0
  advance-owners (checking job_id job) host fresh own h = ground arith
  advance-owners (marking job_id job) host fresh own h = refl
  advance-owners (creating job_id job) host fresh own h = omega (
    arith,
    created-owners job_id job host.world (create_run X job.id job.device_id "manual" host.world)
        refl fresh h,
  )
  advance-owners (starting job_id job run_id) host fresh own h =
      launch-owners job_id job run_id (new X.windows X.which config) host own
  advance-owners (recording job_id job run_id r) host fresh own h = refl
  advance-owners (completing job_id job) host fresh own h = refl

  Move-owners :
      {s t : ServingOf X}
      → Move X config s t
      → IsFresh s.world.tables
      → HasRow X config id run s.world.tables
      → owners id s.tasks ≡ 0
      → owners id t.tasks ≡ 0
  Move-owners (serve call) fresh h own = own
  Move-owners (receive {s} execution waiting oldest) fresh h own =
      omega (arith, own, owners-append id s.tasks (fetching execution ∷ []))
  Move-owners (work {s} before task later here) fresh h own =
      let left = left_of (advance X config task (host_of X s)).0 in
      let split = owners-middle id before (task ∷ []) later in
      omega (
        arith,
        own,
        ap (owners id) here,
        split,
        owners-middle id before left later,
        advance-owners task (host_of X s) fresh (omega (arith, own, ap (owners id) here, split)) h,
      )

  no_owner-HasRow :
      {start s : ServingOf X}
      → Moves X config start s
      → IsFresh start.world.tables
      → start.tasks ≡ []
      → HasRow X config id run start.world.tables
      → HasRow X config id run s.world.tables × (owners id s.tasks ≡ 0)
  no_owner-HasRow none_yet fresh idle h = (h, ap (owners id) idle)
  no_owner-HasRow (then_move before last) fresh idle h =
      let (h', own) = no_owner-HasRow before fresh idle h in
      let (fresh', _) = Moves-IsCovered X config fresh idle before in
      (Move-HasRow X config id run last fresh' own h', Move-owners last fresh' h' own)

  -- No step of the program changes a run that was in the table when the program was started, whatever
  -- becomes of the queries: one that an earlier process left "running" stays so. At the start the
  -- sequence of the ids is ahead of the table of runs and no task runs.
  pub find_run-old :
      {start s : ServingOf X}
      → IsFresh start.world.tables
      → start.tasks ≡ []
      → find_run id start.world.tables.runs ≡ some run
      → Moves X config start s
      → find_run id s.world.tables.runs ≡ some run
  find_run-old fresh idle h after = (no_owner-HasRow after fresh idle h).0
