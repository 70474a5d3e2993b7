-- ===== src/Config/Remote/Numbers.antt =====
-- The numbers among the settings: `sync_interval_seconds`, and the executor's limit in src/main.rs.
use rbackup.Base.{
  ℕ, ◌<◌, ◌≡◌, refl, String, Option, none, some, unwrap_or, arith, Option-cases, inl, inr,
  string_eq,
}
use rbackup.Base.Decimal.{print, parse_u64, u64_limit, parse_u64-print, parse_u64-lt}
use rbackup.Config.Remote.{
  RemoteConfig, parse_number, get_setting, sync_interval_seconds, max_concurrent_backups,
}

-- A number that is read from a setting as the source does, with a default: the default if there is
-- none, the number if it is the text of one below 2^64, and in any case below 2^64.
abbrev pub IsRead : Option String → ℕ → ℕ → Type 0
IsRead setting default value =
    (setting ≡ none → value ≡ default)
    × ((n : ℕ) → n < u64_limit → setting ≡ some (print n) → value ≡ n)
    × ((s : String) → setting ≡ some s → parse_u64 s ≡ none → value ≡ default)
    × (value < u64_limit)

parse_number-lt :
    (setting : Option String) (default : ℕ)
    → default < u64_limit
    → unwrap_or (parse_number setting) default < u64_limit
parse_number-lt none default h = h
parse_number-lt (some s) default h = elim (Option-cases (parse_u64 s)) [
  | inl absent ↦ rw absent h
  | inr (n, read) ↦ rw read (parse_u64-lt s read)
]

parse_number-IsRead :
    (setting : Option String) (default : ℕ)
    → default < u64_limit
    → IsRead setting default (unwrap_or (parse_number setting) default)
parse_number-IsRead setting default h = (
  λ e. rw e refl,
  λ n fits e. rw e (rw (parse_u64-print n fits) refl),
  λ s e failed. rw e (rw failed refl),
  parse_number-lt setting default h,
)

module _ {Json : Type 0} (c : RemoteConfig Json) where
  -- The interval is 300 where it is not set or no number, the number that is set where its text is
  -- that of a number below 2^64, and below 2^64 in any case; the limit of the executor likewise, with
  -- the default 1.
  pub numbers-IsRead :
      IsRead (get_setting c "sync_interval_seconds") 300 (sync_interval_seconds c)
      × IsRead (get_setting c "max_concurrent_backups") 1 (max_concurrent_backups c)
  unfolding sync_interval_seconds max_concurrent_backups
  numbers-IsRead = (
    parse_number-IsRead (get_setting c "sync_interval_seconds") 300 (omega arith),
    parse_number-IsRead (get_setting c "max_concurrent_backups") 1 (omega arith),
  )
