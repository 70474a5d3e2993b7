-- ===== src/External.antt =====
-- What the program calls and does not implement: sqlx and PostgreSQL's answers, JSON and YAML
-- libraries, the clock, PATH and the `restic` process.
use rbackup.Base.{ℕ, String, Bool, Option, List, ◌⊎◌, some, ◌==◌, option_eq, int_eq}
use rbackup.Base.Int.{ℤ, pos}
use rbackup.Models.{DateTime, Uuid}
use rbackup.Scheduler.ScheduleCalc.{Cron}
use rbackup.Backup.Output.{Serde}
use rbackup.Backup.Restic.{Command, JsonValue}

-- `std::process::Output`: the exit code, which is missing after a signal, and what was printed.
pub record Output : Type 0 where
  pub code : Option ℤ
  pub stdout : List ℕ
  pub stderr : List ℕ

-- `ExitStatus::success`
unfoldable pub success : Output → Bool
success output = output.code == some (pos 0)

-- What becomes of a query: it is answered, it fails and changes nothing, or it takes effect and its
-- answer is lost.
pub data Fate (SqlxError : Type 0) : Type 0 where
  served : Fate SqlxError
  refused lost : SqlxError → Fate SqlxError

pub record Externals : Type 1 where
  pub SqlxError : Type 0
  pub show_sqlx : SqlxError → String
  -- The error for a row that breaks a constraint of the schema, and `sqlx::Error::RowNotFound`.
  pub violation : SqlxError
  pub row_not_found : SqlxError
  pub json : JsonValue
  pub show_uuid : Uuid → String
  -- The text of the error of `Sender::send` on a closed channel.
  pub channel_closed : String
  pub cron : Cron
  pub serde : Serde
  pub windows : Bool
  -- `which::which`
  pub which : String → Option String
  -- The process that is run as the `n`-th: its output, or the text of the error at its start. A
  -- process is taken to end at some time.
  pub run : Command → ℕ → String ⊎ Output
  pub from_utf8_lossy : List ℕ → String
  -- The `n`-th reading of `Utc::now()`, and `NOW()` in the `n`-th query.
  pub clock : ℕ → DateTime
  pub server_clock : ℕ → DateTime
  -- What becomes of the `n`-th query.
  pub fate : ℕ → Fate SqlxError
