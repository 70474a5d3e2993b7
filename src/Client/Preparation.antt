-- ===== src/Client/Preparation.antt =====
-- What stands before the client runs a backup or starts its tasks.
use rbackup.Base.{
  ◌≡◌, ◌≢◌, sym, ap, ◌∙◌, ◌&&◌, String, Option, none, some, filter, or_else, ◌==◌, string_eq,
}
use rbackup.Error.{ok, ok_or}
use rbackup.Models.{BackupJob, Device}
use rbackup.Config.Local.{LocalConfig}
use rbackup.Config.Remote.{RemoteConfig, repository_url}
use rbackup.Config.Loading.{load_config_from_db, own_setting, load_config_from_db-ok}
use rbackup.External.{Externals}
use rbackup.Database.World.{Tables, State, resume-eq-ok}
use rbackup.Database.Writes.{upsert_device}
use rbackup.Database.Writes.Devices.{find_device, IsRegistered, upsert_device-ok}
use rbackup.Client.{not_empty, prepare}
use rbackup.Client.TestBackup.{ok_or-ok}

not_empty-some :
    (o : Option String) (url : String) → not_empty o ≡ some url → (o ≡ some url) × (url ≢ "")
not_empty-some none url h = cc
not_empty-some (some String.[]) url h = cc
not_empty-some (some (String.◌∷◌ c s)) url h = (h, λ e. cc)

module _ (X : Externals) (config : LocalConfig) (platform : String) (hostname : Option String) where
  -- A client that goes on has registered its device under its id, and has loaded a configuration with
  -- a repository URL that is not empty: the device's own if that is set, and else the global one. Its
  -- jobs are the enabled ones of the device.
  pub prepare-ok :
      (w w' : State X) (c : RemoteConfig X.json.Json)
      → prepare X config platform hostname w ≡ (ok c, w')
      → (d : Device X.json.Json) × (url : String) × (find_device config.device.id w'.tables.devices
          ≡ some d)
        × IsRegistered X config.device.id config.device.id platform hostname
            (X.server_clock w.queries)
            (find_device config.device.id w.tables.devices)
            d
        × (or_else
              (own_setting "repository_url" (some config.device.id) w'.tables.settings)
              (own_setting "repository_url" none w'.tables.settings)
            ≡ some url)
        × (url ≢ "")
        × (c.jobs
            ≡ filter
                (λ (j : BackupJob X.json.Json). j.device_id == config.device.id && j.enabled)
                w'.tables.backup_jobs)
  unfolding prepare repository_url
  prepare-ok w w' c h =
      let (d, w1, registered, rest) =
        resume-eq-ok (upsert_device X config.device.id config.device.id platform hostname w) _ c w'
          h in
      let (loaded, w2, read, rest1) =
        resume-eq-ok (load_config_from_db X config.device.id w1) _ c w' rest in
      let (url, w3, given, last) =
        resume-eq-ok (ok_or (not_empty (repository_url loaded)) _, w2) _ c w' rest1 in
      let (url_is, same) = ok_or-ok (not_empty (repository_url loaded)) _ url w2 w3 given in
      let (setting, full) = not_empty-some (repository_url loaded) url url_is in
      let (is_registered, found, others) =
        upsert_device-ok X config.device.id config.device.id platform hostname w w1 d registered in
      let (tables, jobs, schedules, settings) =
        load_config_from_db-ok X config.device.id w1 w2 loaded read in
      let c_is : loaded ≡ c = cc in
      let w_is : w2 ≡ w' = same ∙ cc in
      let kept : w1.tables ≡ w'.tables = sym tables ∙ ap (λ (v : State X). v.tables) w_is in
      (
        d,
        url,
        ap (λ (t : Tables X.json.Json). find_device config.device.id t.devices) (sym kept) ∙ found,
        is_registered,
        ap
              (λ (t : Tables X.json.Json).
                or_else (own_setting "repository_url" (some config.device.id) t.settings)
                  (own_setting "repository_url" none t.settings))
              (sym kept)
            ∙ sym (settings "repository_url")
            ∙ setting,
        full,
        ap (λ (r : RemoteConfig X.json.Json). r.jobs) (sym c_is)
            ∙ jobs
            ∙ ap
                (λ (t : Tables X.json.Json).
                  filter
                    (λ (j : BackupJob X.json.Json). j.device_id == config.device.id && j.enabled)
                    t.backup_jobs)
                kept,
      )
