-- ===== src/Backup/Output/Summary.antt =====
-- Which line decides the result.
use text.Mathlib.TextEquality.{eq_iff}
use rbackup.Base.{
  sym, subst, unwrap_or, ◌≡◌, refl, ap, ◌∙◌, ◌↔◌, inl, inr, String, false, none, some, List, [],
  ◌∷◌, ◌++◌, arith, All, is_empty, trim, lines, Option-cases, string_eq,
}
use rbackup.Base.Int.{pos}
use rbackup.Error.{ok, err, AppError, output_parse_failed}
use rbackup.Backup.Output.{
  BackupStats, ResticSummary, Serde, stats_of, read_line, find_summary, parse_restic_json_output,
}

module _ (serde : Serde) where
  -- A line that reads as the summary `s`: it is not blank, its message type is "summary", and its
  -- text parses as `s`.
  pub record IsSummary (line : String) (s : ResticSummary) : Type 0 where
    pub not_blank : is_empty (trim line) ≡ false
    pub kind : serde.message_type (trim line) ≡ some "summary"
    pub parsed : serde.summary (trim line) ≡ some s

  -- A line that reads as no summary.
  abbrev pub IsSkipped : String → Type 0
  IsSkipped line = (s : ResticSummary) → ¬ IsSummary line s

  read_line-IsSummary :
      (line : String) (s : ResticSummary) → read_line serde line ≡ some s → IsSummary line s
  unfolding read_line
  read_line-IsSummary line s h = elim (Option-cases (serde.message_type (trim line))) [
    | inl absent ↦ ground arith
    | inr (t, e) ↦ record { not_blank = ground arith; kind = ground arith; parsed = ground arith }
  ]

  read_line_of_IsSummary :
      (line : String) (s : ResticSummary) → IsSummary line s → read_line serde line ≡ some s
  unfolding read_line
  read_line_of_IsSummary line s h = ground (arith, h.not_blank, h.kind, h.parsed)

  read_line-IsSkipped : (line : String) → read_line serde line ≡ none → IsSkipped line
  read_line-IsSkipped line e s h = cc (read_line_of_IsSummary line s h)

  read_line_of_IsSkipped : (line : String) → IsSkipped line → read_line serde line ≡ none
  read_line_of_IsSkipped line h = elim (Option-cases (read_line serde line)) [
    | inl e ↦ e
    | inr (s, e) ↦ absurd (h s (read_line-IsSummary line s e))
  ]

  -- The first summary among the lines is `s`.
  pub record FirstSummary (ls : List String) (s : ResticSummary) : Type 0 where
    pub before : List String
    pub line : String
    pub after : List String
    pub split : ls ≡ before ++ (line ∷ after)
    pub skipped : All IsSkipped before
    pub is_summary : IsSummary line s

  find_summary-append :
      (before : List String) (line : String) (after : List String) (s : ResticSummary)
      → All IsSkipped before
      → IsSummary line s
      → find_summary serde (before ++ (line ∷ after)) ≡ some s
  unfolding find_summary
  find_summary-append [] line after s h is =
      rw (read_line_of_IsSummary line s is, find_summary) refl
  find_summary-append (x ∷ xs) line after s (hx, hs) is =
      rw (read_line_of_IsSkipped x hx, find_summary) (find_summary-append xs line after s hs is)

  find_summary-FirstSummary :
      (ls : List String) (s : ResticSummary) → find_summary serde ls ≡ some s → FirstSummary ls s
  unfolding find_summary
  find_summary-FirstSummary [] s h = cc
  find_summary-FirstSummary (x ∷ xs) s h = elim (Option-cases (read_line serde x)) [
    | inl skip ↦
        let f = find_summary-FirstSummary xs s (rw (skip, find_summary) at h) in
        record {
          before = x ∷ f.before;
          line = f.line;
          after = f.after;
          split = cc (f.split);
          skipped = (read_line-IsSkipped x skip, f.skipped);
          is_summary = f.is_summary;
        }
    | inr (r, e) ↦
        let same : r ≡ s = ground arith in
        record {
          before = [];
          line = x;
          after = xs;
          split = refl;
          skipped = tt;
          is_summary = read_line-IsSummary x s (e ∙ ap some same);
        }
  ]

  find_summary_of_first :
      (ls : List String) (s : ResticSummary) → FirstSummary ls s → find_summary serde ls ≡ some s
  find_summary_of_first ls s f =
      ap (find_summary serde) f.split
      ∙ find_summary-append f.before f.line f.after s f.skipped f.is_summary

  find_summary-none : (ls : List String) → find_summary serde ls ≡ none → All IsSkipped ls
  unfolding find_summary
  find_summary-none [] h = tt
  find_summary-none (x ∷ xs) h = elim (Option-cases (read_line serde x)) [
    | inl skip ↦ (read_line-IsSkipped x skip, find_summary-none xs (rw (skip, find_summary) at h))
    | inr (r, e) ↦ ground arith
  ]

  find_summary_of_skipped : (ls : List String) → All IsSkipped ls → find_summary serde ls ≡ none
  unfolding find_summary
  find_summary_of_skipped [] h = refl
  find_summary_of_skipped (x ∷ xs) (hx, hs) =
      rw (read_line_of_IsSkipped x hx, find_summary) (find_summary_of_skipped xs hs)

messages_differ :
    ¬ (◌≡◌ {A = String} "No snapshot_id in summary" "No summary message found in restic output")
messages_differ h =
    ground (arith, eq_iff "No snapshot_id in summary" "No summary message found in restic output")

-- Each count of the statistics is the summary's, or 0 where the summary lacks it.
pub record IsCounted (s : ResticSummary) (stats : BackupStats) : Type 0 where
  pub files_new : stats.files_new ≡ unwrap_or s.files_new (pos 0)
  pub files_changed : stats.files_changed ≡ unwrap_or s.files_changed (pos 0)
  pub files_unmodified : stats.files_unmodified ≡ unwrap_or s.files_unmodified (pos 0)
  pub dirs_new : stats.dirs_new ≡ unwrap_or s.dirs_new (pos 0)
  pub dirs_changed : stats.dirs_changed ≡ unwrap_or s.dirs_changed (pos 0)
  pub dirs_unmodified : stats.dirs_unmodified ≡ unwrap_or s.dirs_unmodified (pos 0)
  pub data_added_bytes : stats.data_added_bytes ≡ unwrap_or s.data_added (pos 0)
  pub total_files_processed :
      stats.total_files_processed ≡ unwrap_or s.total_files_processed (pos 0)
  pub total_bytes_processed :
      stats.total_bytes_processed ≡ unwrap_or s.total_bytes_processed (pos 0)

stats_of-IsCounted : (s : ResticSummary) (id : String) → IsCounted s (stats_of s id)
unfolding stats_of
stats_of-IsCounted s id = record {
  files_new = refl;
  files_changed = refl;
  files_unmodified = refl;
  dirs_new = refl;
  dirs_changed = refl;
  dirs_unmodified = refl;
  data_added_bytes = refl;
  total_files_processed = refl;
  total_bytes_processed = refl;
}

-- The counts and the id are all that there is of the statistics.
IsCounted-stats_of :
    (s : ResticSummary) (stats : BackupStats)
    → IsCounted s stats
    → stats_of s stats.snapshot_id ≡ stats
unfolding stats_of
IsCounted-stats_of s stats c = λ i. record {
  files_new = sym c.files_new i;
  files_changed = sym c.files_changed i;
  files_unmodified = sym c.files_unmodified i;
  dirs_new = sym c.dirs_new i;
  dirs_changed = sym c.dirs_changed i;
  dirs_unmodified = sym c.dirs_unmodified i;
  data_added_bytes = sym c.data_added_bytes i;
  total_files_processed = sym c.total_files_processed i;
  total_bytes_processed = sym c.total_bytes_processed i;
  snapshot_id = stats.snapshot_id;
}

snapshot_id-stats_of : (s : ResticSummary) (id : String) → (stats_of s id).snapshot_id ≡ id
unfolding stats_of
snapshot_id-stats_of s id = refl

module _ {SqlxError : Type 0} (serde : Serde) (stdout : String) where
  parse_found :
      (s : ResticSummary) (id : String)
      → find_summary serde (lines stdout) ≡ some s
      → s.snapshot_id ≡ some id
      → parse_restic_json_output {SqlxError = SqlxError} serde stdout ≡ ok (stats_of s id)
  unfolding parse_restic_json_output
  parse_found s id found e = rw (found, e) refl

  parse_no_id :
      (s : ResticSummary)
      → find_summary serde (lines stdout) ≡ some s
      → s.snapshot_id ≡ none
      → parse_restic_json_output {SqlxError = SqlxError} serde stdout
        ≡ err (AppError.backup (output_parse_failed "No snapshot_id in summary"))
  unfolding parse_restic_json_output
  parse_no_id s found e = rw (found, e) refl

  parse_none :
      find_summary serde (lines stdout) ≡ none
      → parse_restic_json_output {SqlxError = SqlxError} serde stdout
        ≡ err (AppError.backup (output_parse_failed "No summary message found in restic output"))
  unfolding parse_restic_json_output
  parse_none missing = rw missing refl

  parse-ok :
      (stats : BackupStats)
      → parse_restic_json_output {SqlxError = SqlxError} serde stdout ≡ ok stats
      → (s : ResticSummary) × FirstSummary serde (lines stdout) s
        × (s.snapshot_id ≡ some stats.snapshot_id)
        × IsCounted s stats
  parse-ok stats h = elim (Option-cases (find_summary serde (lines stdout))) [
    | inl missing ↦ cc (parse_none missing)
    | inr (s, found) ↦ elim (Option-cases s.snapshot_id) [
      | inl absent ↦ cc (parse_no_id s found absent)
      | inr (id, given) ↦
          let e : stats_of s id ≡ stats = ground (arith, parse_found s id found given) in
          let same : id ≡ stats.snapshot_id =
            sym (snapshot_id-stats_of s id) ∙ ap (λ (b : BackupStats). b.snapshot_id) e in
          (
            s,
            find_summary-FirstSummary serde (lines stdout) s found,
            given ∙ ap some same,
            subst (IsCounted s) e (stats_of-IsCounted s id),
          )
    ]
  ]

  -- The output is accepted exactly where some line reads as a summary and the first one that does
  -- holds a snapshot id; the statistics are then that id and, count by count, the summary's number or 0
  -- where it has none.
  pub parse_restic_json_output_iff :
      (stats : BackupStats)
      → (parse_restic_json_output {SqlxError = SqlxError} serde stdout ≡ ok stats) ↔ (
          (s : ResticSummary) × FirstSummary serde (lines stdout) s
          × (s.snapshot_id ≡ some stats.snapshot_id)
          × IsCounted s stats)
  parse_restic_json_output_iff stats = (
    parse-ok stats,
    λ (s, first, id, counted).
        parse_found s stats.snapshot_id (find_summary_of_first serde (lines stdout) s first) id
        ∙ ap ok (IsCounted-stats_of s stats counted),
  )

  missing :
      parse_restic_json_output {SqlxError = SqlxError} serde stdout
        ≡ err (AppError.backup (output_parse_failed "No summary message found in restic output"))
      → find_summary serde (lines stdout) ≡ none
  missing h = elim (Option-cases (find_summary serde (lines stdout))) [
    | inl e ↦ e
    | inr (s, found) ↦ elim (Option-cases s.snapshot_id) [
      | inl absent ↦ absurd (messages_differ (ground (arith, parse_no_id s found absent)))
      | inr (id, given) ↦ cc (parse_found s id found given)
    ]
  ]

  -- The error is that there is no summary exactly where no line reads as one.
  pub parse_no_summary_iff :
      (parse_restic_json_output {SqlxError = SqlxError} serde stdout
        ≡ err (AppError.backup (output_parse_failed "No summary message found in restic output")))
      ↔ All (IsSkipped serde) (lines stdout)
  parse_no_summary_iff = (
    λ h. find_summary-none serde (lines stdout) (missing h),
    λ skipped. parse_none (find_summary_of_skipped serde (lines stdout) skipped),
  )
