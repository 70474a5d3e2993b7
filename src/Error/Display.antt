-- ===== src/Error/Display.antt =====
-- `impl fmt::Display`: the text of each error.
use rbackup.Base.{String, ◌<>◌}
use rbackup.Error.{ConfigError, DatabaseError, BackupError, SchedulerError, ApiError, AppError}

unfoldable pub show_config : ConfigError → String
show_config (ConfigError.load_failed msg) = "Failed to load configuration: " <> msg
show_config (ConfigError.parse_failed msg) = "Failed to parse configuration: " <> msg
show_config (ConfigError.validation_failed msg) = "Configuration validation failed: " <> msg

unfoldable pub show_backup : BackupError → String
show_backup (BackupError.restic_not_found msg) = "restic binary not found: " <> msg
show_backup (BackupError.execution_failed msg) = "Backup execution failed: " <> msg
show_backup (BackupError.output_parse_failed msg) = "Failed to parse backup output: " <> msg
show_backup (BackupError.configuration_error msg) = "Backup configuration error: " <> msg

unfoldable pub show_scheduler : SchedulerError → String
show_scheduler (SchedulerError.invalid_cron_expression msg) = "Invalid cron expression: " <> msg
show_scheduler (SchedulerError.invalid_interval msg) = "Invalid interval: " <> msg
show_scheduler (SchedulerError.job_not_found msg) = "Job not found: " <> msg

unfoldable pub show_api : ApiError → String
show_api (ApiError.invalid_request msg) = "Invalid request: " <> msg
show_api (ApiError.not_found msg) = "Not found: " <> msg
show_api (ApiError.internal_error msg) = "Internal error: " <> msg

module _ {SqlxError : Type 0} (show_sqlx : SqlxError → String) where
  unfoldable pub show_database : DatabaseError SqlxError → String
  show_database (DatabaseError.connection_failed e) = "Database connection failed: " <> show_sqlx e
  show_database (DatabaseError.query_failed e) = "Database query failed: " <> show_sqlx e
  show_database (DatabaseError.migration_failed e) = "Database migration failed: " <> show_sqlx e

  unfoldable pub show : AppError SqlxError → String
  unfolding show_config show_database show_backup show_scheduler show_api
  show (AppError.config e) = "Configuration error: " <> show_config e
  show (AppError.database e) = "Database error: " <> show_database e
  show (AppError.backup e) = "Backup error: " <> show_backup e
  show (AppError.scheduler e) = "Scheduler error: " <> show_scheduler e
  show (AppError.api e) = "API error: " <> show_api e
