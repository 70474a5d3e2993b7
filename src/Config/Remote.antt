-- ===== src/Config/Remote.antt =====
-- src/config/remote.rs: the configuration that the database holds for a device.
pub mod Numbers
use rbackup.Base.{ℕ, String, Option, none, some, List, map, unwrap_or, string_eq}
use rbackup.Base.HashMap
use rbackup.Base.HashMap.{HashMap}
use rbackup.Base.Decimal.{parse_u64}
use rbackup.Models.{BackupJob, Schedule, Setting}

pub record RemoteConfig (Json : Type 0) : Type 0 where
  pub jobs : List (BackupJob Json)
  pub schedules : List (Schedule Json)
  pub settings : HashMap String String

abbrev pub pair_of : Setting → String × String
pair_of s = (s.key, s.value)

-- `settings_vec.into_iter().map(|s| (s.key, s.value)).collect()`
unfoldable pub settings_map : List Setting → HashMap String String
settings_map settings_vec = HashMap.collect (map pair_of settings_vec)

-- `s.parse().ok()` for a type of unsigned 64-bit numbers, chained by `and_then`.
abbrev pub parse_number : Option String → Option ℕ
parse_number none = none
parse_number (some s) = parse_u64 s

module _ {Json : Type 0} (c : RemoteConfig Json) where
  unfoldable pub get_setting : String → Option String
  get_setting key = HashMap.get key c.settings

  unfoldable pub repository_url : Option String
  unfolding get_setting
  repository_url = get_setting "repository_url"

  unfoldable pub repository_password : Option String
  unfolding get_setting
  repository_password = get_setting "repository_password"

  unfoldable pub repository_cache_dir : Option String
  unfolding get_setting
  repository_cache_dir = get_setting "repository_cache_dir"

  unfoldable pub sync_interval_seconds : ℕ
  unfolding get_setting
  sync_interval_seconds = unwrap_or (parse_number (get_setting "sync_interval_seconds")) 300

  -- `run` in main.rs reads the limit of the executor this way.
  unfoldable pub max_concurrent_backups : ℕ
  unfolding get_setting
  max_concurrent_backups = unwrap_or (parse_number (get_setting "max_concurrent_backups")) 1
