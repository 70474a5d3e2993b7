-- ===== src/Backup/Execute/Frame.antt =====
-- What a backup may change, whatever becomes of its queries.
use rbackup.Base.{
  ℕ, suc, ◌≡◌, refl, sym, subst, ◌∙◌, ◌≢◌, inl, inr, String, Option, some, List, [], ◌∷◌, arith,
  Bool-cases, All, All-append, ◌==◌, int_eq, false, string_eq,
}
use rbackup.Base.Int.{ℤ, pos}
use rbackup.Error.{Result, ok, err}
use rbackup.Models.{BackupJob, Run}
use rbackup.Config.Remote.{RemoteConfig}
use rbackup.Backup.Output.{BackupStats}
use rbackup.Backup.Restic.{ResticCommand, new}
use rbackup.External.{Externals, Output, success}
use rbackup.Database.World.{Tables, World, Stateful, State, fail, pure, resume}
use rbackup.Database.Writes.{
  RunUpdate, apply_update, update_where, new_run, run_insertion, create_run, update_run,
}
use rbackup.Database.Queries.{query-tables}
use rbackup.Database.Runs.{
  find_run, IsOld, IsFresh, changed, create_run-ok, find_run-create_run, run_insertion-inr,
  find_run-update_ne, id-apply_update,
}
use rbackup.Backup.Execute.{
  failure_update, success_update, update_run_with_failure, update_run_with_success,
  execute_restic_command, record_parsed, record_output, record_process, execute_recorded,
  execute_backup,
}

resume-tables :
    {Json E A B : Type 0} (p : Result E A × World Json) (f : A → Stateful (World Json) E B)
    (P : Tables Json → Type 0)
    → P p.1.tables
    → ((a : A) (w : World Json) → P w.tables → P (f a w).1.tables)
    → P (resume p f).1.tables
resume-tables (ok a, w) f P h step = step a w h
resume-tables (err e, w) f P h step = h

-- The update does not leave the run "running".
abbrev pub IsFinal : RunUpdate → Type 0
IsFinal u = (u.status == "running") ≡ false

module _ (X : Externals) (run_id : ℤ) (P : Tables X.json.Json → Type 0)
    (keeps : (u : RunUpdate) (t : Tables X.json.Json)
      → IsFinal u
      → P t
      → P (changed X run_id u t)) where
  update_run-keeps :
      (u : RunUpdate) (w : State X) → IsFinal u → P w.tables → P (update_run X run_id u w).1.tables
  unfolding update_run
  update_run-keeps u w final h = query-tables X _ w P h λ a t e.
      let same : changed X run_id u w.tables ≡ t = cc e in subst P same (keeps u w.tables final h)

  failure-keeps :
      (msg : String) (code : Option ℤ) (stdout stderr : Option String) (w : State X)
      → P w.tables
      → P (update_run_with_failure X run_id msg code stdout stderr w).1.tables
  unfolding update_run_with_failure failure_update string_eq
  failure-keeps msg code stdout stderr w h =
      update_run-keeps _ (record w { readings = suc w.readings }) refl h

  success-keeps :
      (code : ℤ) (stats : BackupStats) (stdout : String) (stderr : Option String) (w : State X)
      → P w.tables
      → P (update_run_with_success X run_id code stats stdout stderr w).1.tables
  unfolding update_run_with_success success_update string_eq
  success-keeps code stats stdout stderr w h =
      update_run-keeps _ (record w { readings = suc w.readings }) refl h

  record_parsed-keeps :
      (code : ℤ) (stdout stderr : String) (r : Result X.SqlxError BackupStats) (w : State X)
      → P w.tables
      → P (record_parsed X run_id code stdout stderr r w).1.tables
  unfolding record_parsed
  record_parsed-keeps code stdout stderr (err e) w h =
      resume-tables _ (λ _. fail e) P (failure-keeps _ _ _ _ w h) (λ a w' k. k)
  record_parsed-keeps code stdout stderr (ok stats) w h =
      resume-tables _ (λ _. pure run_id) P (success-keeps _ stats _ _ w h) (λ a w' k. k)

  record_output-keeps :
      (output : Output) (w : State X) → P w.tables → P (record_output X run_id output w).1.tables
  unfolding record_output
  record_output-keeps output w h = elim (Bool-cases (success output)) [
    | inl good ↦ rw good (record_parsed-keeps _ _ _ _ w h)
    | inr bad ↦ rw bad (resume-tables _ (λ _. fail _) P (failure-keeps _ _ _ _ w h) (λ a w' k. k))
  ]

  pub record_process-keeps :
      (r : Result X.SqlxError Output) (w : State X)
      → P w.tables
      → P (record_process X run_id r w).1.tables
  unfolding record_process
  record_process-keeps (ok output) w h = record_output-keeps output w h
  record_process-keeps (err e) w h =
      resume-tables _ (λ _. fail e) P (failure-keeps _ _ _ _ w h) (λ a w' k. k)

  restic-keeps :
      (made : Result X.SqlxError ResticCommand) (job : BackupJob X.json.Json) (w : State X)
      → P w.tables
      → P
          (resume
            (made, w)
            λ cmd w'.
              let (r, w'') = execute_restic_command X cmd job w' in
              record_process X run_id r w'').1.tables
  unfolding execute_restic_command
  restic-keeps (ok cmd) job w h = record_process-keeps _ _ h
  restic-keeps (err e) job w h = h

  -- Only updates of its run are made from the record of the run on.
  pub execute_recorded-keeps :
      (job : BackupJob X.json.Json) (config : RemoteConfig X.json.Json) (w : State X)
      → P w.tables
      → P (execute_recorded X job config run_id w).1.tables
  unfolding execute_recorded
  execute_recorded-keeps job config w h = restic-keeps (new X.windows X.which config) job w h

module _ (X : Externals) (job : BackupJob X.json.Json) (config : RemoteConfig X.json.Json) where
  -- A property of the tables that holds after the insertion and through every update of the new run
  -- holds at the end.
  execute_backup-keeps :
      (w : State X) (P : Tables X.json.Json → Type 0)
      → IsFresh w.tables
      → ((u : RunUpdate) (t : Tables X.json.Json)
          → IsFinal u
          → P t
          → P (changed X (pos w.tables.next_run_id) u t))
      → P (create_run X job.id job.device_id "manual" w).1.tables
      → P (execute_backup X job config w).1.tables
  unfolding execute_backup
  execute_backup-keeps w P fresh keeps h =
      created (create_run X job.id job.device_id "manual" w) refl
    where
      created :
          (p : Result X.SqlxError ℤ × State X)
          → create_run X job.id job.device_id "manual" w ≡ p
          → P (resume p (execute_recorded X job config)).1.tables
      created (ok id, w') e =
          let id_is = (create_run-ok X job.id job.device_id "manual" w id w' fresh e).0 in
          execute_recorded-keeps X id P
            (subst
              (λ (i : ℤ).
                (u : RunUpdate) (t : Tables X.json.Json) → IsFinal u → P t → P (changed X i u t))
              (sym id_is) keeps)
            job config w' (subst (λ (q : Result X.SqlxError ℤ × State X). P q.1.tables) e h)
      created (err e', w') e = subst (λ (q : Result X.SqlxError ℤ × State X). P q.1.tables) e h

  -- A backup touches no other run than its own, which has the next id of the sequence, whatever
  -- becomes of its queries. The sequence of the ids has to be ahead of the table.
  pub find_run-execute_backup_ne :
      (w : State X) (j : ℤ)
      → IsFresh w.tables
      → j ≢ pos w.tables.next_run_id
      → find_run j (execute_backup X job config w).1.tables.runs ≡ find_run j w.tables.runs
  find_run-execute_backup_ne w j fresh other =
      execute_backup-keeps w (λ t. find_run j t.runs ≡ find_run j w.tables.runs) fresh
        (λ u t final h.
          find_run-update_ne (apply_update X u) (id-apply_update X (pos w.tables.next_run_id) u)
            (pos w.tables.next_run_id) j t.runs other
          ∙ h)
        (find_run-create_run X job.id job.device_id "manual" w j other)

  -- Every row with the id is a run of this job that was inserted as a manual one.
  abbrev IsOwn : ℤ → List (Run X.json.Json) → Type 0
  IsOwn id = All λ (r : Run X.json.Json).
      r.id ≡ id → (r.triggered_by ≡ "manual") × (r.job_id ≡ job.id) × (r.device_id ≡ job.device_id)

  IsOwn-run :
      (id : ℤ) (runs : List (Run X.json.Json))
      → IsOwn id runs
      → (run : Run X.json.Json) → find_run id runs ≡ some run
      → (run.triggered_by ≡ "manual") × (run.job_id ≡ job.id) × (run.device_id ≡ job.device_id)
  unfolding find_run
  IsOwn-run id [] own run h = cc
  IsOwn-run id (r ∷ runs) (own, rest) run h = ground (arith, IsOwn-run id runs rest run, own)

  IsOwn-update :
      (id : ℤ) (u : RunUpdate) (runs : List (Run X.json.Json))
      → IsOwn id runs
      → IsOwn id (update_where (λ (r : Run X.json.Json). r.id == id) (apply_update X u) runs)
  unfolding apply_update
  IsOwn-update id u [] own = tt
  IsOwn-update id u (r ∷ runs) (own, rest) = (λ e. ground (arith, own), IsOwn-update id u runs rest)

  IsOwn-old : (n : ℕ) (runs : List (Run X.json.Json)) → All (IsOld n) runs → IsOwn (pos n) runs
  IsOwn-old n [] h = tt
  IsOwn-old n (r ∷ runs) ((m, e, lt), h) = (λ same. absurd (ground arith), IsOwn-old n runs h)

  IsOwn-create_run :
      (w : State X)
      → IsFresh w.tables
      → IsOwn
          (pos w.tables.next_run_id)
          (create_run X job.id job.device_id "manual" w).1.tables.runs
  unfolding create_run new_run
  IsOwn-create_run w fresh =
      query-tables X (run_insertion X job.id job.device_id "manual") w
        (λ t. IsOwn (pos w.tables.next_run_id) t.runs)
        (IsOwn-old w.tables.next_run_id w.tables.runs fresh)
        λ id t e.
          let (id_is, t_is) =
            run_insertion-inr X job.id job.device_id "manual" (X.server_clock w.queries) w.tables id
              t e in
          subst (λ (s : Tables X.json.Json). IsOwn (pos w.tables.next_run_id) s.runs) (sym t_is)
            (All-append _ w.tables.runs _ (IsOwn-old w.tables.next_run_id w.tables.runs fresh)
              (λ _. (refl, refl, refl), tt))

  -- Where the sequence of the ids is ahead of the table, and whatever becomes of the queries, a run
  -- that is found under the new id after a backup is a run of this job and its device and says
  -- "manual".
  pub triggered_by-execute_backup :
      (w : State X) (run : Run X.json.Json)
      → IsFresh w.tables
      → find_run (pos w.tables.next_run_id) (execute_backup X job config w).1.tables.runs ≡ some run
      → (run.triggered_by ≡ "manual") × (run.job_id ≡ job.id) × (run.device_id ≡ job.device_id)
  triggered_by-execute_backup w run fresh h =
      IsOwn-run (pos w.tables.next_run_id) _
        (execute_backup-keeps w (λ t. IsOwn (pos w.tables.next_run_id) t.runs) fresh
          (λ u t final own. IsOwn-update (pos w.tables.next_run_id) u t.runs own)
          (IsOwn-create_run w fresh))
        run h
