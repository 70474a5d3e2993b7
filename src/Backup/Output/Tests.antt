-- ===== src/Backup/Output/Tests.antt =====
-- The cases of the source's own tests, over a parser that knows the lines used here.
use rbackup.Base.{
  ◌≡◌, ◌↔◌, refl, String, ◌||◌, none, some, lines, trim, ◌==◌, string_eq, if◌then◌else◌,
}
use rbackup.Base.Int.{pos}
use rbackup.Error.{ok, err, AppError, output_parse_failed}
use rbackup.Backup.Output.{
  BackupStats, ResticSummary, Serde, stats_of, find_summary, parse_restic_json_output,
}
use rbackup.Backup.Output.Summary.{FirstSummary, IsCounted, parse_restic_json_output_iff}

abbrev pub sample_summary : ResticSummary
sample_summary = record {
  files_new = some (pos 10);
  files_changed = some (pos 5);
  files_unmodified = none;
  dirs_new = none;
  dirs_changed = none;
  dirs_unmodified = none;
  data_added = some (pos 1048576);
  total_files_processed = none;
  total_bytes_processed = none;
  snapshot_id = some "abc123";
}

abbrev pub sample_serde : Serde
sample_serde = record {
  message_type = λ line.
      if line == "status"
      then some "status"
      else if line == "summary" || line == "no id"
      then some "summary"
      else none;
  summary = λ line.
      if line == "summary"
      then some sample_summary
      else if line == "no id"
      then some (record sample_summary { snapshot_id = none })
      else none;
}

status_then_summary :
    parse_restic_json_output {SqlxError = String} sample_serde "status\n\n  summary\r\nno id\n"
    ≡ ok (stats_of sample_summary "abc123")
unfolding parse_restic_json_output find_summary lines trim string_eq
status_then_summary = refl

missing_summary :
    parse_restic_json_output {SqlxError = String} sample_serde "status"
    ≡ err (AppError.backup (output_parse_failed "No summary message found in restic output"))
unfolding parse_restic_json_output find_summary lines trim string_eq
missing_summary = refl

-- A first summary without an id is final, though one with an id follows.
missing_snapshot_id :
    parse_restic_json_output {SqlxError = String} sample_serde "status\nno id\nsummary"
    ≡ err (AppError.backup (output_parse_failed "No snapshot_id in summary"))
unfolding parse_restic_json_output find_summary lines trim string_eq
missing_snapshot_id = refl

abbrev sample_stats : BackupStats
sample_stats = record {
  files_new = pos 10;
  files_changed = pos 5;
  files_unmodified = pos 0;
  dirs_new = pos 0;
  dirs_changed = pos 0;
  dirs_unmodified = pos 0;
  data_added_bytes = pos 1048576;
  total_files_processed = pos 0;
  total_bytes_processed = pos 0;
  snapshot_id = "abc123";
}

is_sampled : stats_of sample_summary "abc123" ≡ sample_stats
unfolding stats_of
is_sampled = refl

parse_restic_json_output_iff_example :
    (parse_restic_json_output {SqlxError = String} sample_serde "status\n\n  summary\r\nno id\n"
      ≡ ok sample_stats)
    ↔ ((s : ResticSummary) × FirstSummary sample_serde (lines "status\n\n  summary\r\nno id\n") s
        × (s.snapshot_id ≡ some "abc123")
        × IsCounted s sample_stats)
parse_restic_json_output_iff_example =
    parse_restic_json_output_iff sample_serde "status\n\n  summary\r\nno id\n" sample_stats
