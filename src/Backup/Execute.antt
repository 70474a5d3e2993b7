-- ===== src/Backup/Execute.antt =====
-- src/backup.rs: one backup, from the record of its run to the result that is written there.
pub mod Outcome
pub mod Frame
pub mod Settled
mod Tests
use rbackup.Base.{
  ℕ, String, ◌<>◌, Bool, Option, none, some, ◌∷◌, ◌⊎◌, inl, inr, unwrap_or, is_empty, not, length,
  if◌then◌else◌,
}
use rbackup.Base.Int.{ℤ, negsuc}
use rbackup.Error.{Result, ok, err, AppError, execution_failed}
use rbackup.Error.Display.{show}
use rbackup.Models.{BackupJob}
use rbackup.Config.Remote.{RemoteConfig}
use rbackup.Backup.Output.{BackupStats, parse_restic_json_output}
use rbackup.Backup.Restic.{Command, ResticCommand, new, build_backup_command}
use rbackup.External.{Externals, Output, success}
use rbackup.Database.World.{State, Action, pure, fail, from_result, utc_now, ◌>>=◌, ◌>>◌, attempt}
use rbackup.Database.Writes.{RunUpdate, create_run, update_run}

unfoldable pub extract_error_message : String → String
extract_error_message stderr =
    if not (is_empty stderr) then stderr else "Backup failed with no error message"

module _ (X : Externals) where
  unfoldable pub failure_update : String → Option ℤ → Option String → Option String → ℤ → RunUpdate
  failure_update error_msg exit_code stdout stderr now = record {
    end_time = now;
    status = "failed";
    exit_code = exit_code;
    error_message = some error_msg;
    files_new = none;
    files_changed = none;
    files_unmodified = none;
    data_added_bytes = none;
    snapshot_id = none;
    restic_output = stdout;
    restic_errors = stderr;
  }

  unfoldable pub update_run_with_failure :
      ℤ → String → Option ℤ → Option String → Option String → Action X (Unit {0})
  update_run_with_failure run_id error_msg exit_code stdout stderr = do
    now ← utc_now X
    update_run X run_id (failure_update error_msg exit_code stdout stderr now)

  unfoldable pub success_update : ℤ → BackupStats → String → Option String → ℤ → RunUpdate
  success_update exit_code stats stdout stderr now = record {
    end_time = now;
    status = "success";
    exit_code = some exit_code;
    error_message = none;
    files_new = some stats.files_new;
    files_changed = some stats.files_changed;
    files_unmodified = some stats.files_unmodified;
    data_added_bytes = some stats.data_added_bytes;
    snapshot_id = some stats.snapshot_id;
    restic_output = some stdout;
    restic_errors = stderr;
  }

  unfoldable pub update_run_with_success :
      ℤ → ℤ → BackupStats → String → Option String → Action X (Unit {0})
  update_run_with_success run_id exit_code stats stdout stderr = do
    now ← utc_now X
    update_run X run_id (success_update exit_code stats stdout stderr now)

  -- `command.output().await.map_err(..)`
  unfoldable pub process_result : String ⊎ Output → Result X.SqlxError Output
  process_result (inr output) = ok output
  process_result (inl e) =
      err (AppError.backup (execution_failed ("Failed to execute restic: " <> e)))

  unfoldable pub execute_restic_command : ResticCommand → BackupJob X.json.Json → Action X Output
  execute_restic_command restic_cmd job w =
      let command = build_backup_command X.json X.show_uuid restic_cmd job in
      (
        process_result (X.run command (length w.processes)),
        record w { processes = command ∷ w.processes },
      )

  -- `execute_backup` from the parsed output on.
  unfoldable pub record_parsed :
      ℤ → ℤ → String → String → Result X.SqlxError BackupStats → Action X ℤ
  record_parsed run_id exit_code stdout stderr (err e) = do
    update_run_with_failure run_id ("Failed to parse restic output: " <> show X.show_sqlx e)
        (some exit_code) (some stdout) (some stderr)
    fail e
  record_parsed run_id exit_code stdout stderr (ok stats) = do
    update_run_with_success run_id exit_code stats stdout
        (if not (is_empty stderr) then some stderr else none)
    pure run_id

  -- `execute_backup` from the end of the process on.
  unfoldable pub record_output : ℤ → Output → Action X ℤ
  record_output run_id output =
      let exit_code = unwrap_or output.code (negsuc 0) in
      let stdout = X.from_utf8_lossy output.stdout in
      let stderr = X.from_utf8_lossy output.stderr in
      if not (success output)
      then (do
        update_run_with_failure run_id (extract_error_message stderr) (some exit_code) (some stdout)
            (some stderr)
        fail (AppError.backup (execution_failed (extract_error_message stderr))))
      else record_parsed run_id exit_code stdout stderr (parse_restic_json_output X.serde stdout)

  -- `match execute_restic_command(..).await`
  unfoldable pub record_process : ℤ → Result X.SqlxError Output → Action X ℤ
  record_process run_id (ok output) = record_output run_id output
  record_process run_id (err e) = do
    update_run_with_failure run_id (show X.show_sqlx e) none none none
    fail e

  -- `execute_backup` from the record of the run on.
  unfoldable pub execute_recorded :
      BackupJob X.json.Json → RemoteConfig X.json.Json → ℤ → Action X ℤ
  execute_recorded job config run_id = do
    restic_cmd ← from_result (new X.windows X.which config)
    attempt (execute_restic_command restic_cmd job) (record_process run_id)

  unfoldable pub execute_backup : BackupJob X.json.Json → RemoteConfig X.json.Json → Action X ℤ
  execute_backup job config = do
    run_id ← create_run X job.id job.device_id "manual"
    execute_recorded job config run_id
