-- ===== src/Config/Loading.antt =====
-- src/config/remote.rs: `load_config_from_db`, and which of two settings of one name it keeps.
use mathlib.Core.List.{map-append, Memᴰ}
use rbackup.Base.{
  ◌≡◌, ◌↔◌, sym, subst, ap, ◌∙◌, String, ◌&&◌, Option, none, some, List, [], ◌∷◌, ◌++◌, map, filter,
  inr, or_else, arith, ◌==◌, string_eq, option_eq,
}
use rbackup.Base.HashMap
use rbackup.Error.{ok}
use rbackup.Models.{BackupJob, Schedule, Setting}
use rbackup.External.{Externals}
use rbackup.Database.World.{State, Action, pure, ◌>>=◌, resume-eq-ok, Tables, query}
use rbackup.Database.Reads.{
  join_schedules, ordered_settings, get_jobs_for_device, get_schedules_for_device,
  get_settings_for_device,
}
use rbackup.Database.Reads.JoinedSchedules.{IsActive, mem-join_schedules_iff}
use rbackup.Database.Queries.{query-ok}
use rbackup.Config.Remote.{RemoteConfig, pair_of, settings_map, get_setting}

module _ (X : Externals) where
  unfoldable pub load_config_from_db : String → Action X (RemoteConfig X.json.Json)
  load_config_from_db device_id = do
    jobs ← get_jobs_for_device X device_id
    schedules ← get_schedules_for_device X device_id
    settings_vec ← get_settings_for_device X device_id
    pure (record { jobs = jobs; schedules = schedules; settings = settings_map settings_vec })

get_last-append :
    {V : Type 0} (k : String) (xs ys : List (String × V))
    → HashMap.get_last k (xs ++ ys) ≡ or_else (HashMap.get_last k ys) (HashMap.get_last k xs)
unfolding HashMap.get_last
get_last-append k [] ys = ground arith
get_last-append k ((j, v) ∷ xs) ys = ground (arith, get_last-append k xs ys)

-- The value of a setting in the rows of one owner: a device, or none. Their keys are unique, or the
-- last row counts.
abbrev pub own_setting : String → Option String → List Setting → Option String
own_setting key owner rows =
    HashMap.get_last key (map pair_of (filter (λ (s : Setting). s.device_id == owner) rows))

get-settings_map :
    (device_id key : String) (rows : List Setting)
    → HashMap.get key (settings_map (ordered_settings device_id rows))
      ≡ or_else (own_setting key (some device_id) rows) (own_setting key none rows)
unfolding settings_map ordered_settings
get-settings_map device_id key rows =
    HashMap.get-collect key (map pair_of (ordered_settings device_id rows))
    ∙ ap (HashMap.get_last key) (
        map-append pair_of (filter (λ (s : Setting). s.device_id == none) rows)
          (filter (λ (s : Setting). s.device_id == some device_id) rows))
    ∙ get_last-append key (map pair_of (filter (λ (s : Setting). s.device_id == none) rows))
        (map pair_of (filter (λ (s : Setting). s.device_id == some device_id) rows))

module _ (X : Externals) where
  -- A query that only reads answers from the tables and leaves them alone.
  read-ok :
      {A : Type 0} (f : Tables X.json.Json → A) (w : State X) (a : A) (w' : State X)
      → query X (λ now t. inr (f t, t)) w ≡ (ok a, w')
      → (a ≡ f w.tables) × (w'.tables ≡ w.tables)
  read-ok f w a w' h =
      let (t, e, same) = query-ok X _ w a w' h in (cc e, ap (λ (v : State X). v.tables) same ∙ cc e)

module _ (X : Externals) (device_id : String) where
  -- A loaded configuration holds the enabled jobs of the device. It holds a schedule exactly where the
  -- table of schedules does, the schedule is enabled, and there is an enabled job of the device with
  -- the job id of the schedule. It holds each setting as the device's own row gives it and else as the
  -- global row does, and the tables are as before.
  pub load_config_from_db-ok :
      (w w' : State X) (c : RemoteConfig X.json.Json)
      → load_config_from_db X device_id w ≡ (ok c, w')
      → (w'.tables ≡ w.tables)
        × (c.jobs
            ≡ filter
                (λ (j : BackupJob X.json.Json). j.device_id == device_id && j.enabled)
                w.tables.backup_jobs)
        × ((s : Schedule X.json.Json)
            → Memᴰ s c.schedules
              ↔ (Memᴰ s w.tables.schedules × IsActive device_id w.tables.backup_jobs s))
        × ((key : String)
            → get_setting c key
              ≡ or_else
                  (own_setting key (some device_id) w.tables.settings)
                  (own_setting key none w.tables.settings))
  unfolding load_config_from_db get_jobs_for_device get_schedules_for_device get_settings_for_device
      get_setting
  load_config_from_db-ok w w' c h =
      let (jobs, w1, jobs_read, rest) = resume-eq-ok (get_jobs_for_device X device_id w) _ c w' h in
      let (schedules, w2, schedules_read, rest') =
        resume-eq-ok (get_schedules_for_device X device_id w1) _ c w' rest in
      let (settings, w3, settings_read, built) =
        resume-eq-ok (get_settings_for_device X device_id w2) _ c w' rest' in
      let (jobs_are, same1) = read-ok X _ w jobs w1 jobs_read in
      let (schedules_are, same2) = read-ok X _ w1 schedules w2 schedules_read in
      let (settings_are, same3) = read-ok X _ w2 settings w3 settings_read in
      let same12 : w2.tables ≡ w.tables = same2 ∙ same1 in
      let whole : c
          ≡ record { jobs = jobs; schedules = schedules; settings = settings_map settings } =
        cc in
      let ended : w' ≡ w3 = cc in
      (
        ap (λ (v : State X). v.tables) ended ∙ same3 ∙ same12,
        ap (λ (d : RemoteConfig X.json.Json). d.jobs) whole ∙ jobs_are,
        λ s.
            subst
              (λ rows.
                Memᴰ s rows
                ↔ (Memᴰ s w.tables.schedules × IsActive device_id w.tables.backup_jobs s))
              (sym (
                ap (λ (d : RemoteConfig X.json.Json). d.schedules) whole
                ∙ schedules_are
                ∙ ap
                    (λ (t : Tables X.json.Json). join_schedules device_id t.backup_jobs t.schedules)
                    same1))
              (mem-join_schedules_iff device_id w.tables.backup_jobs s w.tables.schedules),
        λ key.
            ap (λ (d : RemoteConfig X.json.Json). HashMap.get key d.settings) whole
            ∙ ap (λ (rows : List Setting). HashMap.get key (settings_map rows))
                (settings_are
                  ∙ ap (λ (t : Tables X.json.Json). ordered_settings device_id t.settings) same12)
            ∙ get-settings_map device_id key w.tables.settings,
      )
