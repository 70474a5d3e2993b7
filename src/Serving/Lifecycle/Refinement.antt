-- ===== src/Serving/Lifecycle/Refinement.antt =====
-- The steps of the program against the life of a run.
use rbackup.Base.{
  ℕ, ◌≤◌, ◌≡◌, ◌≢◌, refl, sym, ap, subst, ◌∙◌, List, [], ◌∷◌, ◌++◌, some, arith, true, false,
  int_eq, string_eq, if◌then◌else◌, inl, inr, ◌⊎◌,
}
use rbackup.Base.Int.{ℤ, pos}
use rbackup.Error.{Result, ok, err}
use rbackup.Models.{Run, Uuid, is_running}
use rbackup.Config.Remote.{RemoteConfig}
use rbackup.Backup.Restic.{ResticCommand, new}
use rbackup.External.{Externals, Output}
use rbackup.Database.World.{Tables, State}
use rbackup.Database.Queries.{query-tables}
use rbackup.Database.Writes.{new_run, run_insertion, create_run, apply_update}
use rbackup.Database.Runs.{
  find_run, IsFresh, find_run-fresh, inserted, run_insertion-inr, find_run-append_new,
  find_run-append_ne, id-inserted, id-apply_update, find_run-update_self, find_run-update_ne,
}
use rbackup.Backup.Execute.{execute_restic_command, record_process}
use rbackup.Backup.Execute.Frame.{IsFinal, record_process-keeps}
use rbackup.Serving.{
  fetching, checking, marking, creating, completing, starting, recording, TaskOf, HostOf, launch,
  advance, ServingOf, host_of, app_of, Move, serve, receive, work, Moves,
}
use rbackup.Serving.Frame.{perform-SameForTasks}
use rbackup.Serving.Ownership.{owns, owners, owners-middle, unfinished}
use rbackup.Serving.Ownership.Steps.{get_job_by_id-tables}
use rbackup.Serving.Ownership.Reachable.{IsCovered, Moves-IsCovered}
use rbackup.Serving.Lifecycle.{
  in_progress, finished, LifeStep, unchanged, begun, ended, row_life, lives, unfinished-running,
}

module _ (X : Externals) where
  new_run-in_progress :
      (id : ℤ) (runs : List (Run X.json.Json)) (n : ℕ) (job_id : Uuid) (device_id triggered_by : _)
      (now : ℤ)
      → find_run id runs ≡ some (new_run X n job_id device_id triggered_by now)
      → lives runs id ≡ in_progress
  unfolding new_run is_running string_eq
  new_run-in_progress id runs n job_id device_id triggered_by now found = ap row_life found

  create_run-LifeStep :
      (job_id : Uuid) (device_id : _) (w : State X)
      → IsFresh w.tables
      → LifeStep
          (lives w.tables.runs)
          (lives (create_run X job_id device_id "manual" w).1.tables.runs)
  unfolding create_run
  create_run-LifeStep job_id device_id w fresh =
      query-tables X (run_insertion X job_id device_id "manual") w
        (λ t. LifeStep (lives w.tables.runs) (lives t.runs)) (unchanged (λ id. refl))
        λ id t e.
          let now = X.server_clock w.queries in
          let n = w.tables.next_run_id in
          let row = inserted X job_id device_id "manual" now w.tables in
          let (_, t_is) = run_insertion-inr X job_id device_id "manual" now w.tables id t e in
          let row_id = id-inserted X job_id device_id "manual" now w.tables in
          subst (λ (s : Tables X.json.Json). LifeStep (lives w.tables.runs) (lives s.runs))
            (sym t_is)
            (begun (pos n) (ap row_life (find_run-fresh n w.tables.runs fresh))
              (new_run-in_progress (pos n) (w.tables.runs ++ (row ∷ [])) n job_id device_id "manual"
                now (find_run-append_new n w.tables.runs row fresh row_id))
              λ j other.
                ap row_life
                  (find_run-append_ne j w.tables.runs row (λ same. other (sym same ∙ row_id))))

  -- The run is as it was, or finished; the others are as they were.
  abbrev Written : ℤ → Run X.json.Json → Tables X.json.Json → Tables X.json.Json → Type 0
  Written run_id run t t' =
      ((now : Run X.json.Json) × (find_run run_id t'.runs ≡ some now)
        × ((is_running now ≡ false) ⊎ (now ≡ run)))
      × ((j : ℤ) → j ≢ run_id → find_run j t'.runs ≡ find_run j t.runs)

  final-not_running :
      (u : _) (run : Run X.json.Json) → IsFinal u → is_running (apply_update X u run) ≡ false
  unfolding apply_update is_running
  final-not_running u run final = final

  record_process-Written :
      (run_id : ℤ) (r : Result X.SqlxError Output) (w : State X) (run : Run X.json.Json)
      → find_run run_id w.tables.runs ≡ some run
      → Written run_id run w.tables (record_process X run_id r w).1.tables
  record_process-Written run_id r w run found =
      record_process-keeps X run_id (Written run_id run w.tables)
        (λ u t final ((now, found', _), others). (
          (
            apply_update X u now,
            find_run-update_self (apply_update X u) (id-apply_update X run_id u) run_id t.runs
                found',
            inl (final-not_running u now final),
          ),
          λ j other.
              find_run-update_ne (apply_update X u) (id-apply_update X run_id u) run_id j t.runs
                other
              ∙ others j other,
        ))
        r w ((run, found, inr refl), λ j other. refl)

  Written-LifeStep :
      (run_id : ℤ) (run : Run X.json.Json) (t t' : Tables X.json.Json)
      → find_run run_id t.runs ≡ some run
      → is_running run ≡ true
      → Written run_id run t t'
      → LifeStep (lives t.runs) (lives t'.runs)
  Written-LifeStep run_id run t t' found running ((now, found', inl final), others) =
      ended run_id (ap row_life found ∙ ap (λ b. if b then in_progress else finished) running)
        (ap row_life found' ∙ ap (λ b. if b then in_progress else finished) final)
        (λ j other. ap row_life (others j other))
  Written-LifeStep run_id run t t' found running ((now, found', inr same), others) = unchanged λ id.
      elim (int_eq.dec id run_id) [
        | yes here ↦
            ap (lives t'.runs) here
            ∙ ap row_life (found' ∙ ap some same ∙ sym found)
            ∙ sym (ap (lives t.runs) here)
        | no other ↦ ap row_life (others id other)
      ]

  pub launch-runs :
      (job_id : Uuid) (job : _) (run_id : ℤ) (made : Result X.SqlxError ResticCommand)
      (host : HostOf X)
      → (launch X job_id job run_id made host).1.world.tables ≡ host.world.tables
  unfolding launch execute_restic_command
  launch-runs job_id job run_id (ok cmd) host = refl
  launch-runs job_id job run_id (err e) host = refl

  -- One step of a task, where the runs that it owns are in progress.
  advance-LifeStep :
      (config : RemoteConfig X.json.Json) (task : TaskOf X) (host : HostOf X)
      → IsFresh host.world.tables
      → ((id : ℤ) → owns id task ≤ unfinished id host.world.tables.runs)
      → LifeStep
          (lives host.world.tables.runs)
          (lives (advance X config task host).1.world.tables.runs)
  unfolding advance
  advance-LifeStep config (fetching m) host fresh own =
      get_job_by_id-tables X m.job_id host.world
        (λ t. LifeStep (lives host.world.tables.runs) (lives t.runs)) (unchanged (λ id. refl))
  advance-LifeStep config (checking job_id job) host fresh own = unchanged (λ id. refl)
  advance-LifeStep config (marking job_id job) host fresh own = unchanged (λ id. refl)
  advance-LifeStep config (creating job_id job) host fresh own =
      create_run-LifeStep job.id job.device_id host.world fresh
  advance-LifeStep config (starting job_id job run_id) host fresh own = unchanged λ id.
      ap (λ (t : Tables X.json.Json). lives t.runs id)
        (launch-runs job_id job run_id (new X.windows X.which config) host)
  advance-LifeStep config (recording job_id job run_id r) host fresh own =
      let (run, found, running) =
        unfinished-running run_id host.world.tables.runs (ground (arith, own run_id)) in
      Written-LifeStep run_id run host.world.tables (record_process X run_id r host.world).1.tables
        found running (record_process-Written run_id r host.world run found)
  advance-LifeStep config (completing job_id job) host fresh own = unchanged (λ id. refl)

  pub Move-LifeStep :
      (config : RemoteConfig X.json.Json) {s t : ServingOf X}
      → Move X config s t
      → IsCovered X config s
      → LifeStep (lives s.world.tables.runs) (lives t.world.tables.runs)
  Move-LifeStep config (serve {s} call) covered =
      unchanged λ id. ap (λ l. lives l id) (perform-SameForTasks X call (app_of X s)).0
  Move-LifeStep config (receive execution waiting oldest) covered = unchanged (λ id. refl)
  Move-LifeStep config (work {s} before task later here) (fresh, covers) =
      advance-LifeStep config task (host_of X s) fresh λ id.
        omega (arith, covers id, ap (owners id) here, owners-middle id before (task ∷ []) later)

  -- Every step of the program is a step of the life of a run: take a state that the program reaches
  -- from a start at which the sequence of the ids is ahead of the table of runs and no task runs, by
  -- any calls of the scheduler, messages and steps of tasks in any order. Any single move from there, a
  -- call, a message or one step of a task, whatever becomes of its queries, does one of three things:
  -- it leaves every run where it stands, or it begins one run, which was not in the table, or it ends
  -- one run, which was "running"; and it changes where no other run stands.
  pub Moves-LifeStep :
      (config : RemoteConfig X.json.Json) {start s t : ServingOf X}
      → IsFresh start.world.tables
      → start.tasks ≡ []
      → Moves X config start s
      → Move X config s t
      → LifeStep (lives s.world.tables.runs) (lives t.world.tables.runs)
  Moves-LifeStep config fresh idle before last =
      Move-LifeStep config last (Moves-IsCovered X config fresh idle before)
