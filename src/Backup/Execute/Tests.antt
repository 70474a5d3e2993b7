-- ===== src/Backup/Execute/Tests.antt =====
-- A backup of a concrete job, and the theorems at it.
use rbackup.Base.{
  ◌≡◌, refl, String, true, false, none, some, [], arith, lines, trim, string_eq, nat_eq, int_eq,
  option_eq,
}
use rbackup.Base.Int.{pos}
use rbackup.Base.HashMap
use rbackup.Error.{ok, err, AppError, configuration_error}
use rbackup.Models.{Run, is_running}
use rbackup.Config.Remote.{repository_url, repository_password, repository_cache_dir, get_setting}
use rbackup.Backup.Output.{BackupStats, find_summary, parse_restic_json_output}
use rbackup.Backup.Restic.{ResticCommand, find_restic_binary, new}
use rbackup.External.{success}
use rbackup.Database.World.{State, query, answer}
use rbackup.Database.Writes.{has_references, run_insertion, create_run, update_run}
use rbackup.Database.Runs.{find_run, IsFresh}
use rbackup.Backup.Execute.{
  success_update, update_run_with_success, process_result, execute_restic_command, record_parsed,
  record_output, record_process, execute_recorded, execute_backup,
}
use rbackup.Backup.Execute.Outcome.{IsRecorded, Understood, process, restic, execute_backup-ok}
use rbackup.Backup.Execute.Frame.{triggered_by-execute_backup}
use rbackup.Backup.Execute.Settled.{Settles, execute_backup-Settles, execute_backup-stays_running}
use rbackup.Samples.Program.{
  command, all_served, which_restic, job, tables, world, config, incomplete_config,
}

made : new {SqlxError = String} false which_restic config ≡ ok command
unfolding new find_restic_binary repository_url repository_password repository_cache_dir get_setting
    HashMap.get string_eq
made = refl

not_made :
    new {SqlxError = String} false which_restic incomplete_config
    ≡ err (AppError.backup (configuration_error "Repository password not set"))
unfolding new find_restic_binary repository_url repository_password repository_cache_dir get_setting
    HashMap.get string_eq
not_made = refl

fresh : IsFresh tables
fresh = ((1, refl, omega arith), tt)

known : has_references all_served job.id job.device_id tables ≡ true
unfolding has_references string_eq nat_eq
known = refl

after : State all_served
after = (execute_backup all_served job config world).1

run_2 : execute_backup all_served job config world ≡ (ok (pos 2), after)
unfolding after execute_backup execute_recorded new find_restic_binary repository_url
    repository_password repository_cache_dir get_setting HashMap.get string_eq
    execute_restic_command process_result record_process record_output record_parsed success
    parse_restic_json_output find_summary lines trim update_run_with_success success_update
    update_run create_run run_insertion has_references query answer nat_eq option_eq int_eq
run_2 = refl

execute_backup-ok_example :
    (cmd : ResticCommand) × (stats : BackupStats) × (run : Run all_served.json.Json) × (restic
        all_served job config
      ≡ ok cmd)
    × Understood all_served (process all_served job config cmd world) stats
    × (find_run (pos 2) after.tables.runs ≡ some run)
    × IsRecorded all_served run stats
execute_backup-ok_example = execute_backup-ok all_served job config world (pos 2) after fresh run_2

found_run :
    (run : Run all_served.json.Json) × (find_run
        (pos 2)
        (execute_backup all_served job config world).1.tables.runs
      ≡ some run)
found_run =
    let (run, found, settled) =
      execute_backup-Settles all_served (λ n. refl) job config world fresh known command made in
    (run, found)

triggered_by-execute_backup_example :
    (found_run.0.triggered_by ≡ "manual")
    × (found_run.0.job_id ≡ job.id)
    × (found_run.0.device_id ≡ job.device_id)
triggered_by-execute_backup_example =
    triggered_by-execute_backup all_served job config world found_run.0 fresh found_run.1

execute_backup-Settles_example : Settles (pos 2) (execute_backup all_served job config world)
execute_backup-Settles_example =
    execute_backup-Settles all_served (λ n. refl) job config world fresh known command made

execute_backup-stays_running_example :
    let (r, w') = execute_backup all_served job incomplete_config world in
    (r ≡ err (AppError.backup (configuration_error "Repository password not set")))
    × (w'.processes ≡ [])
    × ((run : Run all_served.json.Json) × (find_run (pos 2) w'.tables.runs ≡ some run)
        × (is_running run ≡ true)
        × (run.end_time ≡ none))
execute_backup-stays_running_example =
    execute_backup-stays_running all_served (λ n. refl) job incomplete_config world fresh known
      (AppError.backup (configuration_error "Repository password not set")) not_made
