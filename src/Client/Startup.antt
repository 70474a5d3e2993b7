-- ===== src/Client/Startup.antt =====
-- src/main.rs: `main` and the first part of `run`: the configuration file, the log, and the connection
-- to the database with `create_pool` and `run_migrations` (src/db/queries.rs).
pub mod Untouched
use rbackup.Base.{ℕ, String, ◌<>◌, Bool, Option, none, some, ◌⊎◌, inl, inr}
use rbackup.Error.{
  Result, ok, err, AppError, validation_failed, connection_failed, migration_failed, and_then,
}
use rbackup.Models.{Uuid}
use rbackup.Config.Local.{LocalConfig, mapped, from_file, database_url}
use rbackup.External.{Externals}
use rbackup.Database.World.{Tables, State, Action, from_result, ◌>>=◌, ◌>>◌}
use rbackup.Client.{platform, Mode}
use rbackup.Client

-- What a start of the program meets: the file and the test job of the command line, the YAML parser,
-- `std::path`, the log filters of `tracing_subscriber`, the connection of sqlx and its migrations,
-- which may have changed the tables also where one of them fails. The errors of the parser of
-- connection strings and of the migrations are taken as wrapped in `sqlx::Error`.
pub record Surroundings (Json SqlxError : Type 0) : Type 1 where
  pub content : String ⊎ String
  pub test_backup : Option Uuid
  pub from_str : String → String ⊎ LocalConfig
  pub parent : String → Option String
  pub file_name : String → Option String
  -- The text of the panic of `tracing_appender::rolling::daily`, where it cannot open the log.
  pub daily : String → String → Option String
  pub default_filter : String ⊎ Unit {0}
  pub new_filter : String → String ⊎ Unit {0}
  pub ConnectOptions : Type 0
  pub parse_options : String → SqlxError ⊎ ConnectOptions
  pub connect_with : ConnectOptions → SqlxError ⊎ Unit {0}
  pub migrate : Tables Json → (SqlxError ⊎ Unit {0}) × Tables Json
  pub linux : Bool
  pub hostname : Option String

-- A call returns or panics.
pub data Outcome (A : Type 0) : Type 0 where
  returned : A → Outcome A
  panicked : String → Outcome A

module _ (X : Externals) (env : Surroundings X.json.Json X.SqlxError) where
  -- `EnvFilter::try_from_default_env().or_else(..)`
  env_filter : String ⊎ Unit {0} → String ⊎ Unit {0}
  env_filter (inr filter) = inr filter
  env_filter (inl e) = env.new_filter "info"

  -- `setup_logging` from the two parts of the path on. `daily` may create the log file and its
  -- directory; the file system is no part of the state, so only the text of its panic is kept.
  log_to : Option String → Option String → Outcome (Result X.SqlxError (Unit {0}))
  log_to none name = panicked "Log file must have a parent directory"
  log_to (some directory) none = panicked "Log file must have a filename"
  log_to (some directory) (some name) = elim (env.daily directory name) [
    | some message ↦ panicked message
    | none ↦ returned (
        mapped (env_filter env.default_filter)
          (λ e. AppError.config (validation_failed ("Invalid log filter: " <> e))))
  ]

  unfoldable pub setup_logging : LocalConfig → Outcome (Result X.SqlxError (Unit {0}))
  unfolding env_filter log_to
  setup_logging config =
      log_to (env.parent config.client.log_file) (env.file_name config.client.log_file)

  -- The pool is not part of the state.
  unfoldable pub create_pool : String → Action X (Unit {0})
  create_pool connection_string = from_result (
      and_then
        (mapped (env.parse_options connection_string)
          (λ e. AppError.database (connection_failed e)))
        λ options. mapped (env.connect_with options) (λ e. AppError.database (connection_failed e)))

  unfoldable pub run_migrations : Action X (Unit {0})
  run_migrations w =
      let (result, tables) = env.migrate w.tables in
      (mapped result (λ e. AppError.database (migration_failed e)), record w { tables = tables })

  -- `run` from the connection to the database on.
  unfoldable pub run_connected : LocalConfig → Action X (Mode X.json.Json)
  run_connected config = do
    create_pool (database_url config)
    run_migrations
    Client.run X config env.test_backup (platform X.windows env.linux) env.hostname

  -- `run` from the result of `setup_logging` on.
  unfoldable pub run_logged :
      LocalConfig
      → Outcome (Result X.SqlxError (Unit {0}))
      → State X
      → Outcome (Result X.SqlxError (Mode X.json.Json)) × State X
  run_logged config (panicked message) w = (panicked message, w)
  run_logged config (returned (err e)) w = (returned (err e), w)
  run_logged config (returned (ok _)) w = let (r, w') = run_connected config w in (returned r, w')

  -- `run` from the result of `from_file` on.
  unfoldable pub run_configured :
      Result X.SqlxError LocalConfig
      → State X
      → Outcome (Result X.SqlxError (Mode X.json.Json)) × State X
  run_configured (err e) w = (returned (err e), w)
  run_configured (ok config) w = run_logged config (setup_logging config) w

  -- `run`, up to the start of the tasks.
  unfoldable pub run_program : State X → Outcome (Result X.SqlxError (Mode X.json.Json)) × State X
  run_program w = run_configured (from_file env.content env.from_str) w

-- The exit code of `main`, where `run` has not started the tasks.
unfoldable pub exit_code : {SqlxError A : Type 0} → Outcome (Result SqlxError A) → ℕ
exit_code (returned (ok _)) = 0
exit_code (returned (err e)) = 1
exit_code (panicked message) = 101
