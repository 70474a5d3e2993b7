-- ===== src/Serving/Ownership/Steps.antt =====
-- The steps of a task keep the ownership of runs.
use rbackup.Base.{
  ℕ, ◌+◌, ◌≤◌, ◌≡◌, refl, sym, ap, subst, ◌∙◌, List, none, some, arith, ◌==◌, int_eq, string_eq,
  if◌then◌else◌, All, String, inl, inr, ◌⊎◌, Option,
}
use rbackup.Base.Int.{ℤ, pos}
use rbackup.Error.{Result, ok, err}
use rbackup.Models.{Run, Uuid, BackupJob, is_running}
use rbackup.Config.Remote.{RemoteConfig}
use rbackup.Backup.Restic.{ResticCommand, new}
use rbackup.External.{Externals, Output}
use rbackup.Database.World.{Tables, State}
use rbackup.Database.Queries.{query-tables}
use rbackup.Database.Reads.{get_job_by_id}
use rbackup.Database.Writes.{new_run, run_insertion, create_run, apply_update}
use rbackup.Database.Runs.{
  find_run, IsOld, IsFresh, find_run-fresh, inserted, run_insertion-inr, after_insertion-IsFresh,
  create_run-ok, find_run-create_run, IsOld-update, id-apply_update, find_run-update_ne,
}
use rbackup.Backup.Execute.{execute_restic_command, record_process}
use rbackup.Backup.Execute.Frame.{record_process-keeps}
use rbackup.Serving.{
  fetching, checking, marking, creating, completing, starting, recording, TaskOf, HostOf, fetched,
  created, launch, advance, left_of,
}
use rbackup.Serving.Ownership.{
  owns, owners, unfinished_row, unfinished, Covers, Covers-less, unfinished_bound,
}

module _ (X : Externals) where
  -- The tables cover the owners counted by `count`.
  abbrev pub CoversIn : (ℤ → ℕ) → Tables X.json.Json → Type 0
  CoversIn count t = Covers count t.next_run_id t.runs

  pub get_job_by_id-tables :
      (job_id : Uuid) (w : State X) (P : Tables X.json.Json → Type 0)
      → P w.tables
      → P (get_job_by_id X job_id w).1.tables
  unfolding get_job_by_id
  get_job_by_id-tables job_id w P h = query-tables X _ w P h λ a t e.
      subst
        (λ (r : X.SqlxError ⊎ (_ × Tables X.json.Json)). elim r [
          | inl _ ↦ Unit {0}
          | inr (_, t') ↦ P t'
        ])
        e h

  new_run-is_unfinished :
      (w : State X) (id : ℤ) (job_id : Uuid) (device_id triggered_by : String)
      (runs : List (Run X.json.Json))
      → find_run id runs
        ≡ some (inserted X job_id device_id triggered_by (X.server_clock w.queries) w.tables)
      → unfinished id runs ≡ 1
  unfolding new_run is_running string_eq
  new_run-is_unfinished w id job_id device_id triggered_by runs found = ap unfinished_row found

  unfinished-fresh :
      (n : ℕ) (runs : List (Run X.json.Json)) → All (IsOld n) runs → unfinished (pos n) runs ≡ 0
  unfinished-fresh n runs old = ap unfinished_row (find_run-fresh n runs old)

  unfinished-same :
      (id : ℤ) (a b : List (Run X.json.Json))
      → find_run id b ≡ find_run id a
      → unfinished id b ≡ unfinished id a
  unfinished-same id a b same = ap unfinished_row same

  module _ (job_id : Uuid) (device_id : String) (w : State X) where
    create_run-IsFresh :
        IsFresh w.tables → IsFresh (create_run X job_id device_id "manual" w).1.tables
    unfolding create_run
    create_run-IsFresh fresh =
        query-tables X (run_insertion X job_id device_id "manual") w IsFresh fresh λ id t e.
          let now = X.server_clock w.queries in
          let (_, t_is) = run_insertion-inr X job_id device_id "manual" now w.tables id t e in
          subst IsFresh (sym t_is)
            (after_insertion-IsFresh X job_id device_id "manual" now w.tables fresh)

    -- Whatever becomes of the query.
    create_run-Covers :
        (count : ℤ → ℕ)
        → CoversIn count w.tables
        → CoversIn count (create_run X job_id device_id "manual" w).1.tables
    create_run-Covers count (fresh, h) = (
      create_run-IsFresh fresh,
      λ id. elim (int_eq.dec id (pos w.tables.next_run_id)) [
        | yes same ↦
            let none_yet = unfinished-fresh w.tables.next_run_id w.tables.runs fresh in
            let zero_count : count id ≤ 0 =
              subst (λ i. count i ≤ 0) (sym same)
                (omega (arith, h (pos w.tables.next_run_id), none_yet)) in
            omega (arith, zero_count)
        | no other ↦ omega (
          arith,
          h id,
          unfinished-same id w.tables.runs _
              (find_run-create_run X job_id device_id "manual" w id other),
        )
      ],
    )

    created-Covers :
        (rest : ℤ → ℕ) (queued : Uuid) (job : BackupJob X.json.Json)
        (p : Result X.SqlxError ℤ × State X)
        → create_run X job_id device_id "manual" w ≡ p
        → CoversIn rest w.tables
        → CoversIn (λ id. owns id (created X queued job p.0) + rest id) p.1.tables
    unfolding created
    created-Covers rest queued job (err e, w') h covers =
        Covers-less rest _ _ _ (λ id. omega arith)
          (subst (λ (q : Result X.SqlxError ℤ × State X). CoversIn rest q.1.tables) h
            (create_run-Covers rest covers))
    created-Covers rest queued job (ok run_id, w') h (fresh, covers) =
        let (id_is, found, fresh', same) =
          create_run-ok X job_id device_id "manual" w run_id w' fresh h in
        let one = new_run-is_unfinished w run_id job_id device_id "manual" w'.tables.runs found in
        let none_yet : unfinished run_id w.tables.runs ≡ 0 =
          ap (λ i. unfinished i w.tables.runs) id_is
          ∙ unfinished-fresh w.tables.next_run_id w.tables.runs fresh in
        let (_, kept) =
          subst (λ (q : Result X.SqlxError ℤ × State X). CoversIn rest q.1.tables) h
            (create_run-Covers rest (fresh, covers)) in
        (
          fresh',
          λ id. elim (int_eq.dec run_id id) [
            | yes here ↦
                subst (λ i. (if run_id == i then 1 else 0) + rest i ≤ unfinished i w'.tables.runs)
                  here (ground (arith, one, none_yet, covers run_id))
            | no other ↦ ground (arith, other, kept id)
          ],
        )

  -- A step that writes no run, by what it leaves of its task.
  found-Covers :
      (job_id : Uuid) (r : Result X.SqlxError (Option (BackupJob X.json.Json))) (rest : ℤ → ℕ)
      (t : Tables X.json.Json)
      → CoversIn rest t
      → CoversIn (λ id. owners id (left_of (fetched X job_id r)) + rest id) t
  unfolding fetched
  found-Covers job_id (err e) rest t h = Covers-less rest _ _ _ (λ id. omega arith) h
  found-Covers job_id (ok none) rest t h = Covers-less rest _ _ _ (λ id. omega arith) h
  found-Covers job_id (ok (some job)) rest t h = Covers-less rest _ _ _ (λ id. omega arith) h

  launch-Covers :
      (job_id : Uuid) (job : BackupJob X.json.Json) (run_id : ℤ)
      (made : Result X.SqlxError ResticCommand) (rest : ℤ → ℕ) (host : HostOf X)
      → CoversIn (λ id. (if run_id == id then 1 else 0) + rest id) host.world.tables
      → let (left, host') = launch X job_id job run_id made host in
        CoversIn (λ id. owners id (left_of left) + rest id) host'.world.tables
  unfolding launch execute_restic_command
  launch-Covers job_id job run_id (err e) rest host h = Covers-less _ _ _ _ (λ id. omega arith) h
  launch-Covers job_id job run_id (ok cmd) rest host h = Covers-less _ _ _ _ (λ id. omega arith) h

  -- The update of a run that a task owns.
  record_process-Covers :
      (run_id : ℤ) (r : Result X.SqlxError Output) (rest : ℤ → ℕ) (w : State X)
      → CoversIn (λ id. (if run_id == id then 1 else 0) + rest id) w.tables
      → CoversIn rest (record_process X run_id r w).1.tables
  record_process-Covers run_id r rest w (fresh, h) = (
    record_process-keeps X run_id IsFresh
        (λ u t final old.
          IsOld-update (apply_update X u) (id-apply_update X run_id u) t.next_run_id run_id t.runs
            old)
        r w fresh,
    λ id. elim (int_eq.dec id run_id) [
      | yes same ↦
          let own : (if id == id then 1 else 0) + rest id ≤ unfinished id w.tables.runs =
            subst (λ i. (if i == id then 1 else 0) + rest id ≤ unfinished id w.tables.runs)
              (sym same) (h id) in
          ground (arith, own, unfinished_bound id w.tables.runs)
      | no other ↦
          let kept =
            record_process-keeps X run_id (λ t. find_run id t.runs ≡ find_run id w.tables.runs)
              (λ u t final e.
                find_run-update_ne (apply_update X u) (id-apply_update X run_id u) run_id id t.runs
                  other
                ∙ e)
              r w refl in
          ground (
            arith,
            h id,
            unfinished-same id w.tables.runs (record_process X run_id r w).1.tables.runs kept,
          )
    ],
  )

  -- A step of a task keeps the tables covering the owners: what is left of the task and any others.
  pub advance-Covers :
      (config : RemoteConfig X.json.Json) (task : TaskOf X) (host : HostOf X) (rest : ℤ → ℕ)
      → CoversIn (λ id. owns id task + rest id) host.world.tables
      → let (left, host') = advance X config task host in
        CoversIn (λ id. owners id (left_of left) + rest id) host'.world.tables
  unfolding advance
  advance-Covers config (fetching m) host rest h =
      found-Covers m.job_id (get_job_by_id X m.job_id host.world).0 rest
        (get_job_by_id X m.job_id host.world).1.tables
        (get_job_by_id-tables m.job_id host.world (CoversIn rest)
          (Covers-less _ rest _ _ (λ id. omega arith) h))
  advance-Covers config (checking job_id job) host rest h =
      Covers-less _ _ _ _ (λ id. ground arith) h
  advance-Covers config (marking job_id job) host rest h = Covers-less _ _ _ _ (λ id. omega arith) h
  advance-Covers config (creating job_id job) host rest h =
      Covers-less _ _ _ _ (λ id. omega arith)
        (created-Covers job.id job.device_id host.world rest job_id job
          (create_run X job.id job.device_id "manual" host.world) refl
          (Covers-less _ rest _ _ (λ id. omega arith) h))
  advance-Covers config (starting job_id job run_id) host rest h =
      launch-Covers job_id job run_id (new X.windows X.which config) rest host h
  advance-Covers config (recording job_id job run_id r) host rest h =
      Covers-less _ _ _ _ (λ id. omega arith) (record_process-Covers run_id r rest host.world h)
  advance-Covers config (completing job_id job) host rest h =
      Covers-less _ _ _ _ (λ id. omega arith) h
