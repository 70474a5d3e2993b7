-- ===== src/Backup/Output.antt =====
-- src/backup/output.rs: the summary in the lines that `restic --json` prints.
pub mod Summary
pub mod Tests
use rbackup.Base.{
  String, Bool, true, false, Option, none, some, List, [], ◌∷◌, unwrap_or, is_empty, trim, lines,
  ◌==◌, string_eq, if◌then◌else◌,
}
use rbackup.Base.Int.{ℤ, pos}
use rbackup.Error.{Result, ok, err, AppError, output_parse_failed, and_then, ok_or}

pub record BackupStats : Type 0 where
  pub files_new : ℤ
  pub files_changed : ℤ
  pub files_unmodified : ℤ
  pub dirs_new : ℤ
  pub dirs_changed : ℤ
  pub dirs_unmodified : ℤ
  pub data_added_bytes : ℤ
  pub total_files_processed : ℤ
  pub total_bytes_processed : ℤ
  pub snapshot_id : String

pub record ResticSummary : Type 0 where
  pub files_new : Option ℤ
  pub files_changed : Option ℤ
  pub files_unmodified : Option ℤ
  pub dirs_new : Option ℤ
  pub dirs_changed : Option ℤ
  pub dirs_unmodified : Option ℤ
  pub data_added : Option ℤ
  pub total_files_processed : Option ℤ
  pub total_bytes_processed : Option ℤ
  pub snapshot_id : Option String

-- `serde_json::from_str` at the two types that are read from a line; an error is only logged.
-- `ResticMessageType` has one field, its text.
pub record Serde : Type 0 where
  pub message_type : String → Option String
  pub summary : String → Option ResticSummary

unfoldable pub stats_of : ResticSummary → String → BackupStats
stats_of s id = record {
  files_new = unwrap_or s.files_new (pos 0);
  files_changed = unwrap_or s.files_changed (pos 0);
  files_unmodified = unwrap_or s.files_unmodified (pos 0);
  dirs_new = unwrap_or s.dirs_new (pos 0);
  dirs_changed = unwrap_or s.dirs_changed (pos 0);
  dirs_unmodified = unwrap_or s.dirs_unmodified (pos 0);
  data_added_bytes = unwrap_or s.data_added (pos 0);
  total_files_processed = unwrap_or s.total_files_processed (pos 0);
  total_bytes_processed = unwrap_or s.total_bytes_processed (pos 0);
  snapshot_id = id;
}

module _ (serde : Serde) where
  -- What one line of the loop yields: `some` is the summary at which the loop breaks.
  read_line : String → Option ResticSummary
  read_line line = if is_empty (trim line) then none else elim (serde.message_type (trim line)) [
    | none ↦ none
    | some kind ↦ if kind == "summary" then serde.summary (trim line) else none
  ]

  -- The loop over the lines, up to the first summary.
  unfoldable pub find_summary : List String → Option ResticSummary
  unfolding read_line
  find_summary [] = none
  find_summary (line ∷ rest) = elim (read_line line) [ some s ↦ some s | none ↦ find_summary rest ]

module _ {SqlxError : Type 0} (serde : Serde) where
  unfoldable pub parse_restic_json_output : String → Result SqlxError BackupStats
  parse_restic_json_output stdout =
      and_then
        (ok_or (find_summary serde (lines stdout))
          (AppError.backup (output_parse_failed "No summary message found in restic output")))
        λ summary.
          and_then
            (ok_or summary.snapshot_id
              (AppError.backup (output_parse_failed "No snapshot_id in summary")))
            λ snapshot_id. ok (stats_of summary snapshot_id)
