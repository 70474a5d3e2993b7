-- ===== src/Backup/Execute/Settled.antt =====
-- A backup whose queries are all answered settles its run, unless the configuration is incomplete.
use rbackup.Base.{
  suc, ◌≡◌, refl, sym, ap, subst, ◌∙◌, ◌≢◌, String, true, Option, none, some, inl, inr, arith,
  Bool-cases, string_eq,
}
use rbackup.Base.Int.{ℤ, pos}
use rbackup.Error.{Result, ok, err, AppError}
use rbackup.Models.{BackupJob, Run, is_running, is_success, is_failed}
use rbackup.Config.Remote.{RemoteConfig}
use rbackup.Backup.Output.{BackupStats}
use rbackup.Backup.Restic.{ResticCommand, new}
use rbackup.External.{Externals, Output, success}
use rbackup.Database.World.{World, Stateful, State, fail, resume}
use rbackup.Database.Writes.{
  RunUpdate, apply_update, has_references, new_run, create_run, update_run,
}
use rbackup.Database.Queries.{IsServed}
use rbackup.Database.Runs.{
  find_run, IsFresh, inserted, after_insertion, create_run-ok, create_run-served, update_run-served,
}
use rbackup.Backup.Execute.{
  failure_update, success_update, update_run_with_failure, update_run_with_success,
  execute_restic_command, record_parsed, record_output, record_process, execute_recorded,
  execute_backup,
}

-- What the row of a run says of the result of its backup.
abbrev pub IsSettled : {Json E : Type 0} → Result E ℤ → Run Json → Type 0
IsSettled (ok id) run = (is_success run ≡ true) × (run.end_time ≢ none)
IsSettled (err e) run = (is_failed run ≡ true) × (run.end_time ≢ none) × (run.error_message ≢ none)

-- The run is in the table, and its row fits the result.
abbrev pub Settles : {Json E : Type 0} → ℤ → Result E ℤ × World Json → Type 0
Settles {Json} run_id (r, w) =
    (run : Run Json) × (find_run run_id w.tables.runs ≡ some run) × IsSettled r run

resume_of_ok :
    {Json E A B : Type 0} (p : Result E A × World Json) (f : A → Stateful (World Json) E B) (a : A)
    → p.0 ≡ ok a
    → resume p f ≡ f a p.1
resume_of_ok (ok b, w) f a h = ap (λ c. f c w) (ground arith)
resume_of_ok (err e, w) f a h = cc

module _ (X : Externals) (all_served : IsServed X) (run_id : ℤ) where
  -- An update of the run followed by the result `r`.
  update-Settles :
      (u : RunUpdate) (w : State X) {run : Run X.json.Json} (r : Result X.SqlxError ℤ)
      → find_run run_id w.tables.runs ≡ some run
      → IsSettled r (apply_update X u run)
      → Settles run_id (resume (update_run X run_id u w) (λ _ w'. (r, w')))
  update-Settles u w {run} r found settled =
      let (answered, found') = update_run-served X all_served run_id u w found in
      subst (Settles run_id)
        (sym (resume_of_ok (update_run X run_id u w) (λ _ w'. (r, w')) tt answered))
        (apply_update X u run, found', settled)

  failure-IsSettled :
      (msg : String) (code : Option ℤ) (stdout stderr : Option String) (now : ℤ)
      (run : Run X.json.Json) (e : AppError X.SqlxError)
      → IsSettled (err e) (apply_update X (failure_update X msg code stdout stderr now) run)
  unfolding apply_update failure_update is_failed string_eq
  failure-IsSettled msg code stdout stderr now run e = (refl, λ h. cc, λ h. cc)

  failure-Settles :
      (msg : String) (code : Option ℤ) (stdout stderr : Option String) (e : AppError X.SqlxError)
      (w : State X) {run : Run X.json.Json}
      → find_run run_id w.tables.runs ≡ some run
      → Settles run_id
          (resume (update_run_with_failure X run_id msg code stdout stderr w) (λ _. fail e))
  unfolding update_run_with_failure
  failure-Settles msg code stdout stderr e w {run} found =
      update-Settles (failure_update X msg code stdout stderr (X.clock w.readings))
        (record w { readings = suc w.readings }) (err e) found
        (failure-IsSettled msg code stdout stderr (X.clock w.readings) run e)

  success-IsSettled :
      (code : ℤ) (stats : BackupStats) (stdout : String) (stderr : Option String) (now : ℤ)
      (run : Run X.json.Json)
      → IsSettled {E = X.SqlxError}
          (ok run_id)
          (apply_update X (success_update X code stats stdout stderr now) run)
  unfolding apply_update success_update is_success string_eq
  success-IsSettled code stats stdout stderr now run = (refl, λ h. cc)

  record_parsed-Settles :
      (code : ℤ) (stdout stderr : String) (r : Result X.SqlxError BackupStats) (w : State X)
      {run : Run X.json.Json}
      → find_run run_id w.tables.runs ≡ some run
      → Settles run_id (record_parsed X run_id code stdout stderr r w)
  unfolding record_parsed update_run_with_success
  record_parsed-Settles code stdout stderr (err e) w found = failure-Settles _ _ _ _ e w found
  record_parsed-Settles code stdout stderr (ok stats) w {run} found =
      update-Settles _ (record w { readings = suc w.readings }) (ok run_id) found
        (success-IsSettled code stats stdout _ (X.clock w.readings) run)

  record_output-Settles :
      (output : Output) (w : State X) {run : Run X.json.Json}
      → find_run run_id w.tables.runs ≡ some run
      → Settles run_id (record_output X run_id output w)
  unfolding record_output
  record_output-Settles output w found = elim (Bool-cases (success output)) [
    | inl good ↦ rw good (record_parsed-Settles _ _ _ _ w found)
    | inr bad ↦ rw bad (failure-Settles _ _ _ _ _ w found)
  ]

  pub record_process-Settles :
      (r : Result X.SqlxError Output) (w : State X) {run : Run X.json.Json}
      → find_run run_id w.tables.runs ≡ some run
      → Settles run_id (record_process X run_id r w)
  unfolding record_process
  record_process-Settles (ok output) w found = record_output-Settles output w found
  record_process-Settles (err e) w found = failure-Settles _ _ _ _ e w found

module _ (X : Externals) (all_served : IsServed X) (job : BackupJob X.json.Json)
    (config : RemoteConfig X.json.Json) (w : State X) (fresh : IsFresh w.tables)
    (known : has_references X job.id job.device_id w.tables ≡ true) where
  abbrev run_id : ℤ
  run_id = pos w.tables.next_run_id

  abbrev started : State X
  started = record w {
    tables = after_insertion X job.id job.device_id "manual" (X.server_clock w.queries) w.tables;
    queries = suc w.queries;
  }

  abbrev new_row : Run X.json.Json
  new_row = inserted X job.id job.device_id "manual" (X.server_clock w.queries) w.tables

  created : create_run X job.id job.device_id "manual" w ≡ (ok run_id, started)
  created = create_run-served X all_served job.id job.device_id "manual" w known

  new_row_found : find_run run_id started.tables.runs ≡ some new_row
  new_row_found = (create_run-ok X job.id job.device_id "manual" w run_id started fresh created).1

  from_record : execute_backup X job config w ≡ execute_recorded X job config run_id started
  unfolding execute_backup
  from_record =
      ap (λ (p : Result X.SqlxError ℤ × State X). resume p (execute_recorded X job config)) created

  recorded-Settles :
      (made : Result X.SqlxError ResticCommand) (cmd : ResticCommand)
      → made ≡ ok cmd
      → Settles run_id (
          resume
            (made, started)
            λ c w'.
              let (r, w'') = execute_restic_command X c job w' in record_process X run_id r w'')
  unfolding execute_restic_command
  recorded-Settles (ok c) cmd e = record_process-Settles X all_served run_id _ _ new_row_found
  recorded-Settles (err e') cmd e = cc

  -- Where all queries are answered, the job and its device are in the tables, the sequence of the ids
  -- is ahead of the table, and the configuration yields a `restic` command, the new run does not stay
  -- "running": its row says "success" if the backup returns a run, and "failed" with a message if it
  -- returns an error, and has an end time.
  pub execute_backup-Settles :
      (cmd : ResticCommand)
      → new {SqlxError = X.SqlxError} X.windows X.which config ≡ ok cmd
      → Settles run_id (execute_backup X job config w)
  unfolding execute_recorded
  execute_backup-Settles cmd made =
      subst (Settles run_id) (sym from_record)
        (recorded-Settles (new X.windows X.which config) cmd made)

  new_row-is_running : (is_running new_row ≡ true) × (new_row.end_time ≡ none)
  unfolding new_run is_running string_eq
  new_row-is_running = (refl, refl)

  -- Where all queries are answered, the job and its device are in the tables, and the sequence of the
  -- ids is ahead of the table, but the configuration yields no command, the backup returns that
  -- error, runs no process, and leaves its run "running" with no end time.
  pub execute_backup-stays_running :
      (e : AppError X.SqlxError)
      → new {SqlxError = X.SqlxError} X.windows X.which config ≡ err e
      → let (r, w') = execute_backup X job config w in
        (r ≡ err e)
        × (w'.processes ≡ w.processes)
        × ((run : Run X.json.Json) × (find_run run_id w'.tables.runs ≡ some run)
            × (is_running run ≡ true)
            × (run.end_time ≡ none))
  unfolding execute_recorded
  execute_backup-stays_running e failed =
      let stopped : execute_backup X job config w ≡ (err e, started) =
        from_record
        ∙ ap
            (λ (made : Result X.SqlxError ResticCommand).
              resume (made, started)
                λ c w'.
                  let (r, w'') = execute_restic_command X c job w' in record_process X run_id r w'')
            failed in
      (
        ap (λ (p : Result X.SqlxError ℤ × State X). p.0) stopped,
        ap (λ (p : Result X.SqlxError ℤ × State X). p.1.processes) stopped,
        (
          new_row,
          ap (λ (p : Result X.SqlxError ℤ × State X). find_run run_id p.1.tables.runs) stopped
              ∙ new_row_found,
          new_row-is_running.0,
          new_row-is_running.1,
        ),
      )
