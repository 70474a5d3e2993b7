-- ===== src/Models.antt =====
-- src/db/models.rs: the rows of the database. `DateTime<Utc>` is a number of nanoseconds since the
-- epoch, a `Uuid` its 128-bit value, an `i32` or `i64` an integer. `serde_json::Value` is a parameter.
pub mod Tags
mod Tests
use rbackup.Base.{ℕ, String, Bool, Option, List, ◌==◌, string_eq, if◌then◌else◌}
use rbackup.Base.Int.{ℤ}

abbrev pub DateTime : Type 0
DateTime = ℤ

abbrev pub Uuid : Type 0
Uuid = ℕ

module _ (Json : Type 0) where
  pub record Device : Type 0 where
    pub id : String
    pub name : String
    pub description : Option String
    pub platform : String
    pub hostname : Option String
    pub last_seen : Option DateTime
    pub created_at : DateTime
    pub updated_at : DateTime
    pub enabled : Bool
    pub metadata : Json

  pub record BackupJob : Type 0 where
    pub id : Uuid
    pub device_id : String
    pub name : String
    pub description : Option String
    pub source_paths : List String
    pub exclude_patterns : Option (List String)
    pub tags : Option (List String)
    pub restic_args : Json
    pub enabled : Bool
    pub created_at : DateTime
    pub updated_at : DateTime
    pub metadata : Json
    pub origin_name : Option String
    pub origin_id : Option Uuid
    pub account_id : Option Uuid

  pub record Schedule : Type 0 where
    pub id : ℤ
    pub job_id : Uuid
    pub schedule_type : String
    pub cron_expression : Option String
    pub interval_seconds : Option ℤ
    pub enabled : Bool
    pub last_run_at : Option DateTime
    pub next_run_at : Option DateTime
    pub created_at : DateTime
    pub updated_at : DateTime
    pub metadata : Json

  pub record Run : Type 0 where
    pub id : ℤ
    pub job_id : Uuid
    pub device_id : String
    pub start_time : DateTime
    pub end_time : Option DateTime
    pub status : String
    pub exit_code : Option ℤ
    pub error_message : Option String
    pub files_new : Option ℤ
    pub files_changed : Option ℤ
    pub files_unmodified : Option ℤ
    pub dirs_new : Option ℤ
    pub dirs_changed : Option ℤ
    pub dirs_unmodified : Option ℤ
    pub data_added_bytes : Option ℤ
    pub total_files_processed : Option ℤ
    pub total_bytes_processed : Option ℤ
    pub duration_seconds : Option ℤ
    pub snapshot_id : Option String
    pub restic_output : Option String
    pub restic_errors : Option String
    pub triggered_by : String
    pub created_at : DateTime
    pub metadata : Json

pub record Setting : Type 0 where
  pub id : ℤ
  pub device_id : Option String
  pub key : String
  pub value : String
  pub description : Option String
  pub created_at : DateTime
  pub updated_at : DateTime

module _ {Json : Type 0} where
  unfoldable pub is_cron : Schedule Json → Bool
  is_cron s = s.schedule_type == "cron"

  unfoldable pub is_interval : Schedule Json → Bool
  is_interval s = s.schedule_type == "interval"

  unfoldable pub is_running : Run Json → Bool
  is_running r = r.status == "running"

  unfoldable pub is_success : Run Json → Bool
  is_success r = r.status == "success"

  unfoldable pub is_failed : Run Json → Bool
  is_failed r = r.status == "failed"
