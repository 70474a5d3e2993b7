-- ===== src/Database/Reads.antt =====
-- The functions that only read: `get_*`.
pub mod RecentRuns
pub mod JoinedSchedules
mod Tests
use rbackup.Base.{
  String, Bool, true, false, ◌&&◌, Option, none, some, List, [], ◌∷◌, ◌++◌, map, inl, inr, filter,
  head?, take, ◌==◌, string_eq, nat_eq, option_eq, if◌then◌else◌,
}
use rbackup.Base.Int.{ℤ, pos, negsuc, leb_ℤ}
use rbackup.Models.{DateTime, Uuid, Device, BackupJob, Schedule, Run, Setting}
use rbackup.External.{Externals}
use rbackup.Database.World.{Tables, Action, Statement, query}

module _ {Json : Type 0} where
  -- `ORDER BY start_time DESC`, by insertion.
  insert_by_start : Run Json → List (Run Json) → List (Run Json)
  insert_by_start r [] = r ∷ []
  insert_by_start r (s ∷ rest) =
      if leb_ℤ s.start_time r.start_time then r ∷ s ∷ rest else s ∷ insert_by_start r rest

  unfoldable pub sort_runs : List (Run Json) → List (Run Json)
  unfolding insert_by_start
  sort_runs [] = []
  sort_runs (r ∷ rest) = insert_by_start r (sort_runs rest)

  -- The rows of a join of schedules and jobs, of a device, both enabled.
  abbrev is_joined : String → Schedule Json → BackupJob Json → Bool
  is_joined device_id s j =
      s.job_id == j.id && (j.device_id == device_id && (j.enabled && s.enabled))

  unfoldable pub join_schedules :
      String → List (BackupJob Json) → List (Schedule Json) → List (Schedule Json)
  join_schedules device_id jobs [] = []
  join_schedules device_id jobs (s ∷ rest) =
      map (λ _. s) (filter (is_joined device_id s) jobs) ++ join_schedules device_id jobs rest

-- `ORDER BY device_id NULLS FIRST` over the rows of one device and those of none.
unfoldable pub ordered_settings : String → List Setting → List Setting
ordered_settings device_id rows =
    filter (λ (s : Setting). s.device_id == none) rows
    ++ filter (λ (s : Setting). s.device_id == some device_id) rows

module _ (X : Externals) where
  abbrev reads : {A : Type 0} → (Tables X.json.Json → A) → Statement X A
  reads f now t = inr (f t, t)

  unfoldable pub get_device : String → Action X (Option (Device X.json.Json))
  get_device device_id =
      query X (reads λ t. head? (filter (λ (d : Device X.json.Json). d.id == device_id) t.devices))

  unfoldable pub get_jobs_for_device : String → Action X (List (BackupJob X.json.Json))
  get_jobs_for_device device_id = query X (
      reads λ t.
        filter (λ (j : BackupJob X.json.Json). j.device_id == device_id && j.enabled) t.backup_jobs)

  unfoldable pub get_job_by_id : Uuid → Action X (Option (BackupJob X.json.Json))
  get_job_by_id job_id =
      query X
        (reads λ t. head? (filter (λ (j : BackupJob X.json.Json). j.id == job_id) t.backup_jobs))

  unfoldable pub get_schedules_for_device : String → Action X (List (Schedule X.json.Json))
  get_schedules_for_device device_id =
      query X (reads λ t. join_schedules device_id t.backup_jobs t.schedules)

  -- A negative limit is rejected.
  recent_runs : String → ℤ → Statement X (List (Run X.json.Json))
  recent_runs device_id (pos limit) now t = inr (
    take limit (sort_runs (filter (λ (r : Run X.json.Json). r.device_id == device_id) t.runs)),
    t,
  )
  recent_runs device_id (negsuc n) now t = inl X.violation

  unfoldable pub get_recent_runs : String → ℤ → Action X (List (Run X.json.Json))
  unfolding recent_runs
  get_recent_runs device_id limit = query X (recent_runs device_id limit)

  unfoldable pub get_settings_for_device : String → Action X (List Setting)
  get_settings_for_device device_id = query X (reads λ t. ordered_settings device_id t.settings)

  unfoldable pub get_global_setting : String → Action X (Option String)
  get_global_setting key = query X (
      reads λ t. head? (
        map (λ (s : Setting). s.value)
          (filter (λ (s : Setting). s.device_id == none && s.key == key) t.settings)))
