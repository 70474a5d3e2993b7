-- ===== src/Client.antt =====
-- src/main.rs: `run` once the database is connected and migrated, up to the start of the tasks. What
-- comes before is in Client/Startup, and the tasks are in Serving.
pub mod TestBackup
pub mod Preparation
pub mod Startup
mod Tests
use rbackup.Base.{ℕ, String, ◌<>◌, Bool, Option, none, some, is_empty, head?, if◌then◌else◌}
use rbackup.Base.Int.{pos}
use rbackup.Error.{ok, err, AppError, validation_failed, configuration_error, query_failed, ok_or}
use rbackup.Models.{Uuid, Run}
use rbackup.Config.Local.{LocalConfig}
use rbackup.Config.Remote.{RemoteConfig, repository_url, max_concurrent_backups}
use rbackup.Config.Loading.{load_config_from_db}
use rbackup.External.{Externals}
use rbackup.Database.World.{Action, pure, from_result, ◌>>=◌}
use rbackup.Database.Reads.{get_job_by_id, get_recent_runs}
use rbackup.Database.Writes.{upsert_device}
use rbackup.Backup.Execute.{execute_backup}

-- `cfg!(target_os = ..)`
abbrev pub platform : Bool → Bool → String
platform windows linux = if windows then "windows" else if linux then "linux" else "unknown"

-- `Option::filter` with `|url| !url.is_empty()`
abbrev pub not_empty : Option String → Option String
not_empty none = none
not_empty (some url) = if is_empty url then none else some url

-- What `run` goes on with: the results of one test backup, or the limit with which the scheduler and
-- the executor are started.
pub data Mode (Json : Type 0) : Type 0 where
  tested : Run Json → Mode Json
  serving : ℕ → Mode Json

module _ (X : Externals) where
  -- The registration of the device, and the configuration that the database holds for it.
  unfoldable pub prepare :
      LocalConfig → String → Option String → Action X (RemoteConfig X.json.Json)
  prepare config platform_name hostname = do
    device ← upsert_device X config.device.id config.device.id platform_name hostname
    remote_config ← load_config_from_db X config.device.id
    repo_url ← from_result (
        ok_or (not_empty (repository_url remote_config)) (
          AppError.config
            (validation_failed "Repository URL is not configured in database settings")))
    pure remote_config

  -- The branch for `--test-backup`: the run whose fields are printed.
  unfoldable pub test_backup : RemoteConfig X.json.Json → Uuid → Action X (Run X.json.Json)
  test_backup remote_config job_id = do
    found ← get_job_by_id X job_id
    job ← from_result (
        ok_or found (
          AppError.backup
            (configuration_error ("Job with ID " <> X.show_uuid job_id <> " not found"))))
    run_id ← execute_backup X job remote_config
    runs ← get_recent_runs X job.device_id (pos 1)
    from_result (ok_or (head? runs) (AppError.database (query_failed X.row_not_found)))

  unfoldable pub choose_mode : RemoteConfig X.json.Json → Option Uuid → Action X (Mode X.json.Json)
  choose_mode remote_config (some job_id) w =
      (do run ← test_backup remote_config job_id; pure (tested run)) w
  choose_mode remote_config none w = pure (serving (max_concurrent_backups remote_config)) w

  unfoldable pub run :
      LocalConfig → Option Uuid → String → Option String → Action X (Mode X.json.Json)
  run config test platform_name hostname = do
    remote_config ← prepare config platform_name hostname
    choose_mode remote_config test
