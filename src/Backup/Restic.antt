-- ===== src/Backup/Restic.antt =====
-- src/backup/restic.rs: the command lines for `restic`.
pub mod CommandLine
pub mod Environment
mod Tests
use rbackup.Base.{
  String, ◌<>◌, Bool, true, false, Option, none, some, List, [], ◌∷◌, ◌++◌, is_empty, string_eq,
  if◌then◌else◌,
}
use rbackup.Base.HashMap
use rbackup.Base.HashMap.{HashMap}
use rbackup.Error.{
  Result, ok, err, AppError, restic_not_found, configuration_error, and_then, ok_or,
}
use rbackup.Models.{Uuid, BackupJob}
use rbackup.Models.Tags.{get_restic_tags}
use rbackup.Config.Remote.{RemoteConfig, repository_url, repository_password, repository_cache_dir}

-- `tokio::process::Command`, as far as the program sets it up: the program, the variables that are
-- set for it, and the arguments in order. The environment that the process inherits from the
-- program, on top of which the variables are set, is not part of it. Its output is always piped.
pub record Command : Type 0 where
  pub program : String
  pub envs : HashMap String String
  pub args : List String

abbrev pub new_command : String → Command
new_command program = record { program = program; envs = []; args = [] }

abbrev pub arg : Command → String → Command
arg cmd a = record cmd { args = cmd.args ++ (a ∷ []) }

abbrev pub env : Command → String → String → Command
env cmd key value = record cmd { envs = HashMap.insert key value cmd.envs }

pub record ResticCommand : Type 0 where
  pub binary_path : String
  pub repository_url : String
  pub repository_password : String
  pub cache_dir : Option String
  pub environment : HashMap String String

-- `which` looks a program up in PATH; `windows` is `cfg!(target_os = "windows")`.
module _ {SqlxError : Type 0} (windows : Bool) (which : String → Option String) where
  unfoldable pub find_restic_binary : Result SqlxError String
  find_restic_binary = ok_or (which (if windows then "restic.exe" else "restic")) (
      AppError.backup (
        restic_not_found
          "restic binary not found in PATH. Please install restic: https://restic.net/"))

  -- `ResticCommand::new`
  unfoldable pub new : {Json : Type 0} → RemoteConfig Json → Result SqlxError ResticCommand
  unfolding find_restic_binary
  new config =
      and_then
        (ok_or (repository_url config)
          (AppError.backup (configuration_error "Repository URL not set")))
        λ url.
          and_then
            (ok_or (repository_password config)
              (AppError.backup (configuration_error "Repository password not set")))
            λ password. and_then find_restic_binary λ binary_path. ok (record {
              binary_path = binary_path;
              repository_url = url;
              repository_password = password;
              cache_dir = repository_cache_dir config;
              environment = [];
            })

-- The part that the two commands share: the program and the variables of the repository.
pub repository_command : ResticCommand → Command
repository_command self =
    let cmd =
      env (env (new_command self.binary_path) "RESTIC_REPOSITORY" self.repository_url)
        "RESTIC_PASSWORD" self.repository_password in
    elim self.cache_dir [
      | none ↦ cmd
      | some cache_dir ↦ if is_empty cache_dir then cmd else env cmd "RESTIC_CACHE_DIR" cache_dir
    ]

pub add_envs : Command → HashMap String String → Command
add_envs cmd [] = cmd
add_envs cmd ((key, value) ∷ rest) = add_envs (env cmd key value) rest

add_args : Command → List String → Command
add_args cmd [] = cmd
add_args cmd (a ∷ rest) = add_args (arg cmd a) rest

-- `cmd.arg(flag).arg(value)` for each value of a list.
add_flags : String → Command → List String → Command
add_flags flag cmd [] = cmd
add_flags flag cmd (a ∷ rest) = add_flags flag (arg (arg cmd flag) a) rest

-- The same for a list that may be missing.
abbrev add_optional_flags : String → Command → Option (List String) → Command
add_optional_flags flag cmd none = cmd
add_optional_flags flag cmd (some values) = add_flags flag cmd values

-- `serde_json::Value::as_array` and `as_str`, and the `Display` of a `Uuid`.
pub record JsonValue : Type 1 where
  pub Json : Type 0
  pub as_array : Json → Option (List Json)
  pub as_str : Json → Option String
  pub empty_object : Json

module _ (J : JsonValue) where
  -- Arguments that are no texts are passed over.
  add_json_args : Command → List J.Json → Command
  add_json_args cmd [] = cmd
  add_json_args cmd (value ∷ rest) =
      add_json_args (elim (J.as_str value) [ none ↦ cmd | some a ↦ arg cmd a ]) rest

  add_restic_args : Command → J.Json → Command
  unfolding add_json_args
  add_restic_args cmd value = elim (J.as_array value) [
    | none ↦ cmd
    | some values ↦ add_json_args cmd values
  ]

module _ (J : JsonValue) (show_uuid : Uuid → String) where
  unfoldable pub build_backup_command : ResticCommand → BackupJob J.Json → Command
  unfolding repository_command add_envs add_args add_flags add_restic_args
  build_backup_command self job =
      let cmd = add_envs (repository_command self) self.environment in
      let cmd' = add_args (arg (arg cmd "backup") "--json") job.source_paths in
      let excluded = add_optional_flags "--exclude" cmd' job.exclude_patterns in
      let tagged = add_flags "--tag" excluded (get_restic_tags show_uuid job) in
      let custom = add_optional_flags "--tag" tagged job.tags in
      add_restic_args J custom job.restic_args

unfoldable pub add_environment : ResticCommand → String → String → ResticCommand
add_environment self key value = record self {
  environment = HashMap.insert key value self.environment;
}

-- The command that `check_repository` runs.
unfoldable pub check_command : ResticCommand → Command
unfolding repository_command
check_command self = arg (arg (arg (repository_command self) "snapshots") "--json") "--last"
