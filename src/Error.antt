-- ===== src/Error.antt =====
-- src/error.rs: the error types, their `Display` and the `From` conversions.
-- `sqlx::Error` belongs to a library, so its type and its text are parameters.
pub mod Display
use rbackup.Base.{String, Option, none, some}

pub data ConfigError : Type 0 where
  load_failed parse_failed validation_failed : String → ConfigError

pub data DatabaseError (SqlxError : Type 0) : Type 0 where
  connection_failed query_failed migration_failed : SqlxError → DatabaseError SqlxError

pub data BackupError : Type 0 where
  restic_not_found execution_failed output_parse_failed configuration_error : String → BackupError

pub data SchedulerError : Type 0 where
  invalid_cron_expression invalid_interval job_not_found : String → SchedulerError

pub data ApiError : Type 0 where
  invalid_request not_found internal_error : String → ApiError

pub data AppError (SqlxError : Type 0) : Type 0 where
  config : ConfigError → AppError SqlxError
  database : DatabaseError SqlxError → AppError SqlxError
  backup : BackupError → AppError SqlxError
  scheduler : SchedulerError → AppError SqlxError
  api : ApiError → AppError SqlxError

-- `Result<T>`
pub data Result (SqlxError : Type 0) (A : Type 0) : Type 0 where
  ok : A → Result SqlxError A
  err : AppError SqlxError → Result SqlxError A

module _ {SqlxError : Type 0} where
  -- `impl From<...> for AppError`, which `?` and `.into()` apply.
  abbrev pub from_sqlx : SqlxError → AppError SqlxError
  from_sqlx e = AppError.database (query_failed e)

-- `impl From<std::io::Error> for ConfigError` and `impl From<serde_yaml::Error> for ConfigError`,
-- over the text of the library's error.
abbrev pub from_io : String → ConfigError
from_io message = load_failed message

abbrev pub from_yaml : String → ConfigError
from_yaml message = parse_failed message

module _ {SqlxError : Type 0} {A : Type 0} where
  -- `?` on a `Result`, in a function that changes no state.
  abbrev pub and_then :
      {B : Type 0} → Result SqlxError A → (A → Result SqlxError B) → Result SqlxError B
  and_then (ok a) f = f a
  and_then (err e) f = err e

  -- `Option::ok_or`, followed by `?`.
  abbrev pub ok_or : Option A → AppError SqlxError → Result SqlxError A
  ok_or none e = err e
  ok_or (some a) e = ok a
