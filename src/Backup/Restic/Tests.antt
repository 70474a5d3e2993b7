-- ===== src/Backup/Restic/Tests.antt =====
-- A command line of a whole job, and the theorems at it.
use rbackup.Base.{
  ◌≡◌, refl, String, true, false, none, some, [], ◌∷◌, ◌==◌, string_eq, nat_eq, if◌then◌else◌,
}
use rbackup.Base.HashMap
use rbackup.Error.{ok, err, AppError, restic_not_found, configuration_error}
use rbackup.Models.{Uuid}
use rbackup.Models.Tags.{get_restic_tags}
use rbackup.Config.Remote.{repository_url, repository_password, repository_cache_dir, get_setting}
use rbackup.Backup.Restic.{
  ResticCommand, find_restic_binary, new, build_backup_command, repository_command, add_envs,
  add_args, add_flags, add_restic_args, add_json_args,
}
use rbackup.Backup.Restic.CommandLine.{job_args, args-build_backup_command}
use rbackup.Backup.Restic.Environment.{repository_env, binary_name, new-build_backup_command}
use rbackup.Samples.Program.{sample_json, which_restic, job, config, incomplete_config}

abbrev show_uuid : Uuid → String
show_uuid = λ n. if n == 7 then "uuid-7" else "uuid"

abbrev restic : ResticCommand
restic = record {
  binary_path = "/usr/bin/restic";
  repository_url = "/srv/laptop";
  repository_password = "secret";
  cache_dir = none;
  environment = [];
}

command_made : new {SqlxError = String} false which_restic config ≡ ok restic
unfolding new find_restic_binary repository_url repository_password repository_cache_dir get_setting
    HashMap.get string_eq
command_made = refl

without_password :
    new {SqlxError = String} false which_restic incomplete_config
    ≡ err (AppError.backup (configuration_error "Repository password not set"))
unfolding new find_restic_binary repository_url repository_password repository_cache_dir get_setting
    HashMap.get string_eq
without_password = refl

without_binary :
    new {SqlxError = String} true which_restic config
    ≡ err (
        AppError.backup (
          restic_not_found
            "restic binary not found in PATH. Please install restic: https://restic.net/"))
unfolding new find_restic_binary repository_url repository_password repository_cache_dir get_setting
    HashMap.get string_eq
without_binary = refl

whole_line :
    (build_backup_command sample_json show_uuid restic job).args
    ≡ "backup" ∷ "--json" ∷ "/home" ∷ "/etc" ∷ "--exclude" ∷ "*.tmp" ∷ "--tag" ∷ "backup:uuid-7"
      ∷ "--tag" ∷ "backup_name=home" ∷ "--tag" ∷ "nightly" ∷ "--one-file-system" ∷ []
unfolding build_backup_command repository_command add_envs add_args add_flags add_restic_args
    add_json_args get_restic_tags string_eq nat_eq
whole_line = refl

args-build_backup_command_example :
    (build_backup_command sample_json show_uuid restic job).args
    ≡ "backup" ∷ "--json" ∷ job_args sample_json show_uuid job
args-build_backup_command_example = args-build_backup_command sample_json show_uuid restic job

new-build_backup_command_example :
    let cmd = build_backup_command sample_json show_uuid restic job in
    (url : String) × (password : String) × (HashMap.get "repository_url" config.settings ≡ some url)
    × (HashMap.get "repository_password" config.settings ≡ some password)
    × (which_restic (binary_name false) ≡ some cmd.program)
    × ((k : String)
        → HashMap.get k cmd.envs
          ≡ repository_env url password (HashMap.get "repository_cache_dir" config.settings) k)
new-build_backup_command_example =
    new-build_backup_command {SqlxError = String} false which_restic sample_json show_uuid config
      restic job command_made
