-- ===== src/Backup/Execute/Outcome.antt =====
-- What a backup leaves in the table of runs.
use rbackup.Error.Display.{show}
use rbackup.Base.{
  ◌<>◌, is_empty, unwrap_or, if◌then◌else◌, ℕ, suc, ◌≡◌, refl, sym, ap, subst, ◌≢◌, ◌⊎◌, inl, inr,
  String, true, Option, none, some, ◌∷◌, arith, length, not, Bool-cases, string_eq, option_eq,
  int_eq,
}
use rbackup.Base.Int.{ℤ, pos, negsuc}
use rbackup.Error.{Result, ok, err, AppError}
use rbackup.Models.{BackupJob, Run, is_success}
use rbackup.Config.Remote.{RemoteConfig}
use rbackup.Backup.Output.{BackupStats, parse_restic_json_output}
use rbackup.Backup.Restic.{Command, ResticCommand, new, build_backup_command}
use rbackup.External.{Externals, Output, success}
use rbackup.Database.World.{State, resume-eq-ok, resume-fail, resume-pure}
use rbackup.Database.Writes.{apply_update, create_run, update_run}
use rbackup.Database.Runs.{find_run, IsFresh, create_run-ok, update_run-ok}
use rbackup.Backup.Execute.{
  success_update, update_run_with_failure, update_run_with_success, process_result,
  execute_restic_command, execute_recorded, record_parsed, record_output, record_process,
  execute_backup,
}

Result-cases :
    {E A : Type 0} (r : Result E A) → ((a : A) × (r ≡ ok a)) ⊎ ((e : AppError E) × (r ≡ err e))
Result-cases (ok a) = inl (a, refl)
Result-cases (err e) = inr (e, refl)

ok-injective : {E A : Type 0} {a b : A} → ◌≡◌ {A = Result E A} (ok a) (ok b) → a ≡ b
ok-injective h = ground arith

module _ (X : Externals) where
  -- A run that is recorded as a success of `stats`.
  pub record IsRecorded (run : Run X.json.Json) (stats : BackupStats) : Type 0 where
    pub succeeded : is_success run ≡ true
    pub exit_code : run.exit_code ≡ some (pos 0)
    pub no_error : run.error_message ≡ none
    pub ended : run.end_time ≢ none
    pub snapshot_id : run.snapshot_id ≡ some stats.snapshot_id
    pub files_new : run.files_new ≡ some stats.files_new
    pub files_changed : run.files_changed ≡ some stats.files_changed
    pub files_unmodified : run.files_unmodified ≡ some stats.files_unmodified
    pub data_added_bytes : run.data_added_bytes ≡ some stats.data_added_bytes

  success_update-IsRecorded :
      (exit_code : ℤ) (stats : BackupStats) (stdout : String) (stderr : Option String) (now : ℤ)
      (run : Run X.json.Json)
      → exit_code ≡ pos 0
      → IsRecorded (apply_update X (success_update X exit_code stats stdout stderr now) run) stats
  unfolding apply_update success_update is_success string_eq
  success_update-IsRecorded exit_code stats stdout stderr now run zero = record {
    succeeded = refl;
    exit_code = ap some zero;
    no_error = refl;
    ended = λ e. cc;
    snapshot_id = refl;
    files_new = refl;
    files_changed = refl;
    files_unmodified = refl;
    data_added_bytes = refl;
  }

  -- What `record_parsed` and its callers promise of a successful result.
  abbrev Records : ℤ → BackupStats → Result X.SqlxError ℤ × State X → Type 0
  Records run_id stats (r, w') =
      (run : Run X.json.Json) × (r ≡ ok run_id)
      × (find_run run_id w'.tables.runs ≡ some run)
      × IsRecorded run stats

  record_parsed-ok :
      (run_id exit_code : ℤ) (stdout stderr : String) (r : Result X.SqlxError BackupStats)
      (w : State X) {run : Run X.json.Json} (id : ℤ) (w' : State X)
      → exit_code ≡ pos 0
      → find_run run_id w.tables.runs ≡ some run
      → record_parsed X run_id exit_code stdout stderr r w ≡ (ok id, w')
      → (stats : BackupStats) × (r ≡ ok stats) × Records run_id stats (ok id, w')
  unfolding record_parsed update_run_with_success
  record_parsed-ok run_id exit_code stdout stderr (err e) w id w' zero found h = absurd (
      resume-fail
        (update_run_with_failure X run_id ("Failed to parse restic output: " <> show X.show_sqlx e)
          (some exit_code) (some stdout) (some stderr) w)
        e id w' h)
  record_parsed-ok run_id exit_code stdout stderr (ok stats) w {run} id w' zero found h =
      let errors : Option String = if not (is_empty stderr) then some stderr else none in
      let now = X.clock w.readings in
      let u = success_update X exit_code stats stdout errors now in
      let (updated, same) =
        resume-pure (update_run X run_id u (record w { readings = suc w.readings })) run_id id w'
          h in
      (
        stats,
        refl,
        (
          apply_update X u run,
          ap ok same,
          update_run-ok X run_id u (record w { readings = suc w.readings }) w' found updated,
          success_update-IsRecorded exit_code stats stdout errors now run zero,
        ),
      )

  -- A process that ended well, and whose output was understood.
  abbrev pub Understood : Result X.SqlxError Output → BackupStats → Type 0
  Understood r stats =
      (output : Output) × (r ≡ ok output)
      × (output.code ≡ some (pos 0))
      × (parse_restic_json_output {SqlxError = X.SqlxError} X.serde
            (X.from_utf8_lossy output.stdout)
          ≡ ok stats)

  success-code : (output : Output) → success output ≡ true → output.code ≡ some (pos 0)
  unfolding success
  success-code output h = ground arith

  record_output-ok :
      (run_id : ℤ) (output : Output) (w : State X) {run : Run X.json.Json} (id : ℤ) (w' : State X)
      → find_run run_id w.tables.runs ≡ some run
      → record_output X run_id output w ≡ (ok id, w')
      → (stats : BackupStats) × Understood (ok output) stats × Records run_id stats (ok id, w')
  unfolding record_output
  record_output-ok run_id output w id w' found h = elim (Bool-cases (success output)) [
    | inl good ↦
        let code = success-code output good in
        let exit_code = unwrap_or output.code (negsuc 0) in
        let zero : exit_code ≡ pos 0 = ap (λ (c : Option ℤ). unwrap_or c (negsuc 0)) code in
        let (stats, parsed, records) =
          record_parsed-ok run_id exit_code (X.from_utf8_lossy output.stdout)
            (X.from_utf8_lossy output.stderr)
            (parse_restic_json_output X.serde (X.from_utf8_lossy output.stdout)) w id w' zero found
            (rw good at h) in
        (stats, (output, refl, code, parsed), records)
    | inr bad ↦ absurd (resume-fail _ _ id w' (rw bad at h))
  ]

  record_process-ok :
      (run_id : ℤ) (r : Result X.SqlxError Output) (w : State X) {run : Run X.json.Json} (id : ℤ)
      (w' : State X)
      → find_run run_id w.tables.runs ≡ some run
      → record_process X run_id r w ≡ (ok id, w')
      → (stats : BackupStats) × Understood r stats × Records run_id stats (ok id, w')
  unfolding record_process
  record_process-ok run_id (ok output) w id w' found h =
      record_output-ok run_id output w id w' found h
  record_process-ok run_id (err e) w id w' found h = absurd (
      resume-fail (update_run_with_failure X run_id (show X.show_sqlx e) none none none w) e id w'
        h)

module _ (X : Externals) (job : BackupJob X.json.Json) (config : RemoteConfig X.json.Json) where
  abbrev pub restic : Result X.SqlxError ResticCommand
  restic = new X.windows X.which config

  -- The process of the backup, as it runs in a state.
  abbrev pub backup_command : ResticCommand → Command
  backup_command cmd = build_backup_command X.json X.show_uuid cmd job

  abbrev pub process : ResticCommand → State X → Result X.SqlxError Output
  process cmd w = process_result X (X.run (backup_command cmd) (length w.processes))

  execute_recorded-ok :
      (run_id : ℤ) (w : State X) {run : Run X.json.Json} (id : ℤ) (w' : State X)
      → find_run run_id w.tables.runs ≡ some run
      → execute_recorded X job config run_id w ≡ (ok id, w')
      → (cmd : ResticCommand) × (stats : BackupStats) × (restic ≡ ok cmd)
        × Understood X (process cmd w) stats
        × Records X run_id stats (ok id, w')
  unfolding execute_recorded execute_restic_command
  execute_recorded-ok run_id w id w' found h = elim (Result-cases restic) [
    | inl (cmd, made) ↦
        let (stats, understood, records) =
          record_process-ok X run_id (process cmd w)
            (record w { processes = backup_command cmd ∷ w.processes }) id w' found
            (rw made at h) in
        (cmd, stats, made, understood, records)
    | inr (e, failed) ↦ cc (rw failed at h)
  ]

  -- A backup that returns a run's id has run `restic` to exit code 0 with an output that was
  -- understood, and that run is found in the table as a success with the statistics of the output.
  -- It holds whatever becomes of the queries; the sequence of the ids has to be ahead of the table.
  pub execute_backup-ok :
      (w : State X) (id : ℤ) (w' : State X)
      → IsFresh w.tables
      → execute_backup X job config w ≡ (ok id, w')
      → (cmd : ResticCommand) × (stats : BackupStats) × (run : Run X.json.Json) × (restic ≡ ok cmd)
        × Understood X (process cmd w) stats
        × (find_run id w'.tables.runs ≡ some run)
        × IsRecorded X run stats
  unfolding execute_backup
  execute_backup-ok w id w' fresh h =
      let (run_id, w1, created, rest) =
        resume-eq-ok (create_run X job.id job.device_id "manual" w) (execute_recorded X job config)
          id w' h in
      let (_, found, _, w1_is) =
        create_run-ok X job.id job.device_id "manual" w run_id w1 fresh created in
      let (cmd, stats, made, understood, (run, same, found', recorded)) =
        execute_recorded-ok run_id w1 id w' found rest in
      (
        cmd,
        stats,
        run,
        made,
        subst (λ (n : ℕ). Understood X (process_result X (X.run (backup_command cmd) n)) stats)
            (ap (λ (s : State X). length s.processes) w1_is) understood,
        subst (λ (j : ℤ). find_run j w'.tables.runs ≡ some run) (ok-injective (sym same)) found',
        recorded,
      )
