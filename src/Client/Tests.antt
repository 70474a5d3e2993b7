-- ===== src/Client/Tests.antt =====
-- A test backup against a concrete database, and the theorem at it.
use rbackup.Base.{
  ◌&&◌, ◌≡◌, refl, String, some, filter, lines, trim, ◌==◌, string_eq, nat_eq, int_eq, option_eq,
  ◌⊎◌, ◌≢◌, or_else, none, [], ◌∷◌,
}
use rbackup.Base.HashMap
use rbackup.Base.Int.{ℤ}
use rbackup.Error.{Result, ok, err}
use rbackup.Models.{BackupJob, Run, Device}
use rbackup.Config.Remote.{repository_url, repository_password, repository_cache_dir, get_setting}
use rbackup.Backup.Output.{find_summary, parse_restic_json_output}
use rbackup.Backup.Restic.{find_restic_binary, new}
use rbackup.External.{success}
use rbackup.Database.World.{State, query, answer}
use rbackup.Database.Reads.{sort_runs, get_job_by_id, get_recent_runs}
use rbackup.Database.Writes.{
  apply_update, new_run, has_references, run_insertion, create_run, update_run,
}
use rbackup.Backup.Execute.{
  success_update, update_run_with_success, process_result, execute_restic_command, record_parsed,
  record_output, record_process, execute_recorded, execute_backup,
}
use rbackup.Config.Loading.{load_config_from_db, own_setting}
use rbackup.Config.Remote.{RemoteConfig, settings_map}
use rbackup.Database.Reads.{
  join_schedules, ordered_settings, get_jobs_for_device, get_schedules_for_device,
  get_settings_for_device,
}
use rbackup.Database.Writes.{upsert_device}
use rbackup.Database.Writes.Devices.{find_device, IsRegistered}
use rbackup.Client.{test_backup, prepare}
use rbackup.Client.Startup.{run_program}
use rbackup.Client.Startup.Untouched.{IsUntouched, IsReady, run_program-IsUntouched}
use rbackup.Client.Preparation.{prepare-ok}
use rbackup.Client.TestBackup.{IsNewest, test_backup-ok}
use rbackup.Samples.{SampleJson, clock, interval_schedule, cron_schedule}
use rbackup.Samples.Program.{surroundings, local, all_served, job, old_run, tables, world, config}

abbrev printed : Result String (Run SampleJson) → Run SampleJson
printed (ok run) = run
printed (err e) = old_run

result : Result String (Run SampleJson) × State all_served
result = test_backup all_served config 7 world

tested : test_backup all_served config 7 world ≡ (ok (printed result.0), result.1)
unfolding result test_backup get_recent_runs sort_runs get_job_by_id execute_backup execute_recorded
    new find_restic_binary repository_url repository_password repository_cache_dir get_setting
    HashMap.get string_eq execute_restic_command process_result record_process record_output
    record_parsed success parse_restic_json_output find_summary lines trim update_run_with_success
    success_update update_run create_run run_insertion has_references query answer nat_eq option_eq
    int_eq new_run apply_update
tested = refl

test_backup-ok_example :
    (job : BackupJob SampleJson) × (id : ℤ) × (w1 : State all_served) × (w2 : State all_served)
    × (get_job_by_id all_served 7 world ≡ (ok (some job), w1))
    × (execute_backup all_served job config w1 ≡ (ok id, w2))
    × (result.1.tables ≡ w2.tables)
    × ((printed result.0).device_id ≡ job.device_id)
    × IsNewest
        (printed result.0)
        (filter (λ (r : Run SampleJson). r.device_id == job.device_id) result.1.tables.runs)
test_backup-ok_example = test_backup-ok all_served config 7 world result.1 (printed result.0) tested

abbrev loaded : RemoteConfig SampleJson
loaded = record {
  jobs = job ∷ [];
  schedules = interval_schedule ∷ cron_schedule ∷ [];
  settings = ("repository_url", "/srv/laptop") ∷ ("repository_password", "secret") ∷ [];
}

ready : State all_served
ready = (prepare all_served local "linux" (some "host") world).1

prepared : prepare all_served local "linux" (some "host") world ≡ (ok loaded, ready)
unfolding ready prepare load_config_from_db get_jobs_for_device get_schedules_for_device
    get_settings_for_device query answer join_schedules ordered_settings settings_map
    HashMap.collect HashMap.insert HashMap.get get_setting repository_url upsert_device string_eq
    option_eq nat_eq
prepared = refl

prepare-ok_example :
    (d : Device SampleJson) × (url : String) × (find_device "laptop" ready.tables.devices ≡ some d)
    × IsRegistered all_served "laptop" "laptop" "linux"
        (some "host")
        (clock 12 0)
        (find_device "laptop" tables.devices)
        d
    × (or_else
          (own_setting "repository_url" (some "laptop") ready.tables.settings)
          (own_setting "repository_url" none ready.tables.settings)
        ≡ some url)
    × (url ≢ "")
    × (loaded.jobs
        ≡ filter
            (λ (j : BackupJob SampleJson). j.device_id == "laptop" && j.enabled)
            ready.tables.backup_jobs)
prepare-ok_example = prepare-ok all_served local "linux" (some "host") world ready loaded prepared

run_program-IsUntouched_example :
    IsUntouched all_served surroundings world (run_program all_served surroundings world)
    ⊎ IsReady all_served surroundings
run_program-IsUntouched_example = run_program-IsUntouched all_served surroundings world
