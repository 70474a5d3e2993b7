-- ===== src/Serving/Draining/Recorded.antt =====
-- Where every query is answered, a run that is "running" has a task that is to update it.
use rbackup.Base.{
  ℕ, ◌+◌, ◌≤◌, ◌≡◌, refl, sym, ap, ◌∙◌, none, some, Option, arith, String, true, false, Bool-cases,
  int_eq, string_eq, ◌==◌, if◌then◌else◌, inl, inr,
}
use rbackup.Base.Int.{ℤ}
use rbackup.Error.{Result, ok, err}
use rbackup.Models.{Run, Uuid, BackupJob, is_running, is_success, is_failed}
use rbackup.Config.Remote.{RemoteConfig}
use rbackup.Backup.Restic.{ResticCommand, new}
use rbackup.External.{Externals, Output}
use rbackup.Database.World.{Tables, State}
use rbackup.Database.Queries.{query-tables, IsServed}
use rbackup.Database.Reads.{get_job_by_id}
use rbackup.Database.Writes.{has_references, run_insertion, create_run, apply_update}
use rbackup.Database.Runs.{
  find_run, IsFresh, create_run-ok, create_run-served, find_run-create_run, id-apply_update,
  find_run-update_ne,
}
use rbackup.Backup.Execute.{execute_restic_command, record_process}
use rbackup.Backup.Execute.Frame.{record_process-keeps}
use rbackup.Backup.Execute.Settled.{IsSettled, record_process-Settles}
use rbackup.Serving.{
  fetching, checking, marking, creating, completing, starting, recording, TaskOf, HostOf, fetched,
  created, launch, advance, left_of,
}
use rbackup.Serving.Ownership.{owns, owners, unfinished, unfinished_row, unfinished_bound}
use rbackup.Serving.Ownership.Steps.{get_job_by_id-tables}
use rbackup.Serving.Lifecycle.{unfinished-running}

equal_texts : (a b : String) → (a == b) ≡ true → a ≡ b
equal_texts a b h = ground arith

success_is_final : ◌==◌ {A = String} "success" "running" ≡ false
unfolding string_eq
success_is_final = refl

failed_is_final : ◌==◌ {A = String} "failed" "running" ≡ false
unfolding string_eq
failed_is_final = refl

module _ {Json : Type 0} where
  -- Each run that is "running" is counted.
  abbrev pub Counted : (ℤ → ℕ) → Tables Json → Type 0
  Counted count t = (id : ℤ) → unfinished id t.runs ≤ count id

  pub settled-not_running :
      {E : Type 0} (r : Result E ℤ) (run : Run Json) → IsSettled r run → is_running run ≡ false
  unfolding is_running is_success is_failed
  settled-not_running (ok id) run (done, _) =
      ap (λ s. s == "running") (equal_texts run.status "success" done) ∙ success_is_final
  settled-not_running (err e) run (done, _, _) =
      ap (λ s. s == "running") (equal_texts run.status "failed" done) ∙ failed_is_final

module _ (X : Externals) (all_served : IsServed X) where
  create_run-rejected :
      (job_id : Uuid) (device_id : _) (w : State X)
      → has_references X job_id device_id w.tables ≡ false
      → (create_run X job_id device_id "manual" w).1.tables ≡ w.tables
  unfolding create_run run_insertion
  create_run-rejected job_id device_id w unknown =
      query-tables X (run_insertion X job_id device_id "manual") w (λ t. t ≡ w.tables) refl
        λ a t e. absurd (ground (arith, e, unknown))

  created-Counted :
      (job_id : Uuid) (device_id : _) (w : State X) (rest : ℤ → ℕ) (queued : Uuid)
      (job : BackupJob X.json.Json) (p : Result X.SqlxError ℤ × State X)
      → create_run X job_id device_id "manual" w ≡ p
      → IsFresh w.tables
      → Counted rest w.tables
      → Counted (λ id. owns id (created X queued job p.0) + rest id) p.1.tables
  unfolding created
  created-Counted job_id device_id w rest queued job (ok run_id, w') h fresh counted id =
      let (id_is, _, _, _) = create_run-ok X job_id device_id "manual" w run_id w' fresh h in
      elim (int_eq.dec run_id id) [
        | yes here ↦ ground (arith, here, unfinished_bound id w'.tables.runs)
        | no other ↦
            let kept =
              find_run-create_run X job_id device_id "manual" w id
                (λ same. other (id_is ∙ sym same)) in
            let same : unfinished id w'.tables.runs ≡ unfinished id w.tables.runs =
              ap (λ (q : Result X.SqlxError ℤ × State X). unfinished id q.1.tables.runs) (sym h)
              ∙ ap unfinished_row kept in
            ground (arith, other, same, counted id)
      ]
  created-Counted job_id device_id w rest queued job (err e, w') h fresh counted id =
      elim (Bool-cases (has_references X job_id device_id w.tables)) [
        | inl known ↦
            let served = create_run-served X all_served job_id device_id "manual" w known in
            absurd (cc (sym h ∙ served))
        | inr unknown ↦
            let same : w'.tables ≡ w.tables =
              ap (λ (q : Result X.SqlxError ℤ × State X). q.1.tables) (sym h)
              ∙ create_run-rejected job_id device_id w unknown in
            let kept = ap (λ (t : Tables X.json.Json). unfinished id t.runs) same in
            omega (arith, kept, counted id)
      ]

  record_process-Counted :
      (run_id : ℤ) (r : Result X.SqlxError Output) (w : State X) (rest : ℤ → ℕ)
      (run : Run X.json.Json)
      → find_run run_id w.tables.runs ≡ some run
      → Counted (λ id. (if run_id == id then 1 else 0) + rest id) w.tables
      → Counted rest (record_process X run_id r w).1.tables
  record_process-Counted run_id r w rest run found counted id =
      let after = (record_process X run_id r w).1.tables.runs in
      elim (int_eq.dec id run_id) [
        | yes same ↦
            let (now, found', settled) = record_process-Settles X all_served run_id r w found in
            let zero_now : unfinished run_id after ≡ 0 =
              ap unfinished_row found'
              ∙ ap (λ b. if b then 1 else 0) (settled-not_running _ now settled) in
            let here : unfinished id after ≡ 0 = ap (λ i. unfinished i after) same ∙ zero_now in
            omega (arith, here)
        | no other ↦
            let kept =
              record_process-keeps X run_id (λ t. find_run id t.runs ≡ find_run id w.tables.runs)
                (λ u t final e.
                  find_run-update_ne (apply_update X u) (id-apply_update X run_id u) run_id id
                    t.runs other
                  ∙ e)
                r w refl in
            let same : unfinished id after ≡ unfinished id w.tables.runs = ap unfinished_row kept in
            ground (arith, other, same, counted id)
      ]

  found-Counted :
      (job_id : Uuid) (r : Result X.SqlxError (Option (BackupJob X.json.Json))) (rest : ℤ → ℕ)
      (t : Tables X.json.Json)
      → Counted rest t
      → Counted (λ id. owners id (left_of (fetched X job_id r)) + rest id) t
  unfolding fetched
  found-Counted job_id (err e) rest t h id = omega (arith, h id)
  found-Counted job_id (ok none) rest t h id = omega (arith, h id)
  found-Counted job_id (ok (some job)) rest t h id = omega (arith, h id)

  launch-Counted :
      (job_id : Uuid) (job : BackupJob X.json.Json) (run_id : ℤ)
      (made : Result X.SqlxError ResticCommand) (cmd : ResticCommand) (rest : ℤ → ℕ)
      (host : HostOf X)
      → made ≡ ok cmd
      → Counted (λ id. (if run_id == id then 1 else 0) + rest id) host.world.tables
      → let (left, host') = launch X job_id job run_id made host in
        Counted (λ id. owners id (left_of left) + rest id) host'.world.tables
  unfolding launch execute_restic_command
  launch-Counted job_id job run_id (ok c) cmd rest host e h = λ id. omega (arith, h id)
  launch-Counted job_id job run_id (err e') cmd rest host e h = cc

  module _ (config : RemoteConfig X.json.Json) (cmd : ResticCommand)
      (made : new {SqlxError = X.SqlxError} X.windows X.which config ≡ ok cmd) where
    -- A step of a task, where the runs that it owns are in progress.
    pub advance-Counted :
        (task : TaskOf X) (host : HostOf X) (rest : ℤ → ℕ)
        → IsFresh host.world.tables
        → ((id : ℤ) → owns id task ≤ unfinished id host.world.tables.runs)
        → Counted (λ id. owns id task + rest id) host.world.tables
        → let (left, host') = advance X config task host in
          Counted (λ id. owners id (left_of left) + rest id) host'.world.tables
    unfolding advance
    advance-Counted (fetching m) host rest fresh own h =
        found-Counted m.job_id (get_job_by_id X m.job_id host.world).0 rest
          (get_job_by_id X m.job_id host.world).1.tables
          (get_job_by_id-tables X m.job_id host.world (Counted rest) (λ id. omega (arith, h id)))
    advance-Counted (checking job_id job) host rest fresh own h = λ id. ground (arith, h id)
    advance-Counted (marking job_id job) host rest fresh own h = λ id. omega (arith, h id)
    advance-Counted (creating job_id job) host rest fresh own h = λ id. omega (
      arith,
      created-Counted job.id job.device_id host.world rest job_id job
          (create_run X job.id job.device_id "manual" host.world) refl fresh
          (λ i. omega (arith, h i)) id,
    )
    advance-Counted (starting job_id job run_id) host rest fresh own h =
        launch-Counted job_id job run_id (new X.windows X.which config) cmd rest host made h
    advance-Counted (recording job_id job run_id r) host rest fresh own h = λ id.
        let (run, found, running) =
          unfinished-running run_id host.world.tables.runs (ground (arith, own run_id)) in
        omega (arith, record_process-Counted run_id r host.world rest run found h id)
    advance-Counted (completing job_id job) host rest fresh own h = λ id. omega (arith, h id)
