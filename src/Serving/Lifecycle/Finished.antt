-- ===== src/Serving/Lifecycle/Finished.antt =====
-- The row of a run that is finished.
use rbackup.Base.{◌≡◌, ◌≢◌, sym, ap, ◌∙◌, List, [], ◌∷◌, some, arith, false, int_eq, if◌then◌else◌}
use rbackup.Base.Int.{ℤ, pos}
use rbackup.Models.{Run, is_running}
use rbackup.Config.Remote.{RemoteConfig}
use rbackup.Backup.Restic.{new}
use rbackup.External.{Externals}
use rbackup.Database.World.{Tables}
use rbackup.Database.Writes.{apply_update}
use rbackup.Database.Runs.{
  find_run, IsFresh, find_run-fresh, find_run-create_run, id-apply_update, find_run-update_ne,
}
use rbackup.Backup.Execute.Frame.{record_process-keeps}
use rbackup.Serving.{
  fetching, checking, marking, creating, completing, starting, recording, TaskOf, HostOf, advance,
  ServingOf, host_of, app_of, Move, serve, receive, work, Moves, none_yet, then_move,
}
use rbackup.Serving.Frame.{perform-SameForTasks}
use rbackup.Serving.Ownership.{owns, owners, owners-middle, unfinished_row, unfinished}
use rbackup.Serving.Ownership.Steps.{get_job_by_id-tables}
use rbackup.Serving.Ownership.Reachable.{IsCovered, Move-IsCovered, Moves-IsCovered}
use rbackup.Serving.Lifecycle.Refinement.{launch-runs}

module _ (X : Externals) (config : RemoteConfig X.json.Json) (id : ℤ) (run : Run X.json.Json) where
  -- The row of the run.
  abbrev pub HasRow : Tables X.json.Json → Type 0
  HasRow t = find_run id t.runs ≡ some run

  pub differs_from_next : (t : Tables X.json.Json) → IsFresh t → HasRow t → id ≢ pos t.next_run_id
  differs_from_next t fresh h same =
      let taken : find_run (pos t.next_run_id) t.runs ≡ some run =
        ap (λ i. find_run i t.runs) (sym same) ∙ h in
      let absent = find_run-fresh t.next_run_id t.runs fresh in cc

  advance-HasRow :
      (task : TaskOf X) (host : HostOf X)
      → IsFresh host.world.tables
      → owns id task ≡ 0
      → HasRow host.world.tables
      → HasRow (advance X config task host).1.world.tables
  unfolding advance
  advance-HasRow (fetching m) host fresh own h = get_job_by_id-tables X m.job_id host.world HasRow h
  advance-HasRow (checking job_id job) host fresh own h = h
  advance-HasRow (marking job_id job) host fresh own h = h
  advance-HasRow (creating job_id job) host fresh own h =
      let w = host.world in
      let other = differs_from_next w.tables fresh h in
      find_run-create_run X job.id job.device_id "manual" w id other ∙ h
  advance-HasRow (starting job_id job run_id) host fresh own h =
      ap (λ (t : Tables X.json.Json). find_run id t.runs)
        (launch-runs X job_id job run_id (new X.windows X.which config) host)
      ∙ h
  advance-HasRow (recording job_id job run_id r) host fresh own h =
      let other : id ≢ run_id = λ same. ground (arith, own, same) in
      record_process-keeps X run_id HasRow
        (λ u t final e.
          find_run-update_ne (apply_update X u) (id-apply_update X run_id u) run_id id t.runs other
          ∙ e)
        r host.world h
  advance-HasRow (completing job_id job) host fresh own h = h

  pub Move-HasRow :
      {s t : ServingOf X}
      → Move X config s t
      → IsFresh s.world.tables
      → owners id s.tasks ≡ 0
      → HasRow s.world.tables
      → HasRow t.world.tables
  Move-HasRow (serve {s} call) fresh own h =
      ap (find_run id) (perform-SameForTasks X call (app_of X s)).0 ∙ h
  Move-HasRow (receive execution waiting oldest) fresh own h = h
  Move-HasRow (work {s} before task later here) fresh own h =
      advance-HasRow task (host_of X s) fresh
        (omega (arith, own, ap (owners id) here, owners-middle id before (task ∷ []) later)) h

  finished-no_owner :
      (runs : List (Run X.json.Json))
      → is_running run ≡ false
      → find_run id runs ≡ some run
      → unfinished id runs ≡ 0
  finished-no_owner runs finished h = ap unfinished_row h ∙ ap (λ b. if b then 1 else 0) finished

  later-HasRow :
      {s t : ServingOf X}
      → is_running run ≡ false
      → Moves X config s t
      → IsCovered X config s
      → HasRow s.world.tables
      → IsCovered X config t × HasRow t.world.tables
  later-HasRow finished none_yet covered h = (covered, h)
  later-HasRow finished (then_move {s = u} before last) covered h =
      let (covered', h') = later-HasRow finished before covered h in
      (
        Move-IsCovered X config last covered',
        Move-HasRow last covered'.0
            (omega (arith, covered'.1 id, finished-no_owner u.world.tables.runs finished h')) h',
      )

  -- Once the program has reached a state in which a run is in the table and not "running", no later
  -- step of it changes the row, whatever becomes of the queries. The start is one at which the
  -- sequence of the ids is ahead of the table of runs and no task runs.
  pub find_run-finished :
      {start s t : ServingOf X}
      → is_running run ≡ false
      → IsFresh start.world.tables
      → start.tasks ≡ []
      → Moves X config start s
      → find_run id s.world.tables.runs ≡ some run
      → Moves X config s t
      → find_run id t.world.tables.runs ≡ some run
  find_run-finished finished fresh idle before h after =
      (later-HasRow finished after (Moves-IsCovered X config fresh idle before) h).1
