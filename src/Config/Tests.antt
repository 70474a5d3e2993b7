-- ===== src/Config/Tests.antt =====
-- The configuration of a concrete device, and the theorems at it.
use mathlib.Core.List.{Memᴰ}
use rbackup.Base.{
  ◌↔◌, ◌≡◌, refl, ◌&&◌, String, none, some, [], ◌∷◌, filter, or_else, ◌==◌, string_eq, option_eq,
  nat_eq,
}
use rbackup.Base.HashMap
use rbackup.Base.Decimal.{parse_u64}
use rbackup.Error.{ok}
use rbackup.Models.{BackupJob, Schedule}
use rbackup.Database.World.{State, query, answer}
use rbackup.Database.Reads.{
  join_schedules, ordered_settings, get_jobs_for_device, get_schedules_for_device,
  get_settings_for_device,
}
use rbackup.Config.Remote.{RemoteConfig, settings_map, get_setting, max_concurrent_backups}
use rbackup.Config.Loading.{load_config_from_db, own_setting, load_config_from_db-ok}
use rbackup.Database.Reads.JoinedSchedules.{IsActive}
use rbackup.Samples.{SampleJson, interval_schedule, cron_schedule}
use rbackup.Samples.Program.{all_served, job, tables, world, config}

abbrev loaded : RemoteConfig SampleJson
loaded = record {
  jobs = job ∷ [];
  schedules = interval_schedule ∷ cron_schedule ∷ [];
  settings = ("repository_url", "/srv/laptop") ∷ ("repository_password", "secret") ∷ [];
}

abbrev after : State all_served
after = record world { queries = 3 }

is_loaded : load_config_from_db all_served "laptop" world ≡ (ok loaded, after)
unfolding load_config_from_db get_jobs_for_device get_schedules_for_device get_settings_for_device
    query answer join_schedules ordered_settings settings_map HashMap.collect HashMap.insert
    string_eq option_eq nat_eq
is_loaded = refl

load_config_from_db-ok_example :
    (after.tables ≡ tables)
    × (loaded.jobs
        ≡ filter
            (λ (j : BackupJob SampleJson). j.device_id == "laptop" && j.enabled)
            tables.backup_jobs)
    × ((s : Schedule SampleJson)
        → Memᴰ s loaded.schedules
          ↔ (Memᴰ s tables.schedules × IsActive "laptop" tables.backup_jobs s))
    × ((key : String)
        → get_setting loaded key
          ≡ or_else
              (own_setting key (some "laptop") tables.settings)
              (own_setting key none tables.settings))
load_config_from_db-ok_example =
    load_config_from_db-ok all_served "laptop" world after loaded is_loaded

two_at_once : max_concurrent_backups config ≡ 2
unfolding max_concurrent_backups get_setting HashMap.get string_eq parse_u64
two_at_once = refl
