-- ===== src/Backup/Restic/Environment.antt =====
-- The program that a backup runs, and the environment in which it runs.
use text.Mathlib.TextEquality.{eq_iff}
use rbackup.Base.{
  ◌≡◌, refl, sym, ap, ◌∙◌, ◌≢◌, String, Bool, Option, none, some, [], arith, is_empty, Option-cases,
  inl, inr, ◌==◌, string_eq, if◌then◌else◌,
}
use rbackup.Base.HashMap
use rbackup.Base.HashMap.{HashMap}
use rbackup.Error.{ok}
use rbackup.Models.{Uuid, BackupJob}
use rbackup.Config.Remote.{
  RemoteConfig, repository_url, repository_password, repository_cache_dir, get_setting,
}
use rbackup.Backup.Restic.{
  Command, ResticCommand, new, repository_command, add_envs, JsonValue, build_backup_command,
}
use rbackup.Backup.Restic.CommandLine.{add_envs-collect, build_backup_command-extend}

-- What is set of an optional text that may be empty.
abbrev pub non_empty : Option String → Option String
non_empty none = none
non_empty (some s) = if is_empty s then none else some s

abbrev repository_var : String
repository_var = "RESTIC_REPOSITORY"

abbrev password_var : String
password_var = "RESTIC_PASSWORD"

abbrev cache_var : String
cache_var = "RESTIC_CACHE_DIR"

vars_differ :
    (repository_var ≢ password_var) × (repository_var ≢ cache_var) × (password_var ≢ cache_var)
vars_differ = (
  ground (arith, eq_iff repository_var password_var),
  ground (arith, eq_iff repository_var cache_var),
  ground (arith, eq_iff password_var cache_var),
)

-- The variables of the repository, as a function of the name.
abbrev pub repository_env : String → String → Option String → String → Option String
repository_env url password cache_dir k =
    if k == "RESTIC_REPOSITORY"
    then some url
    else if k == "RESTIC_PASSWORD"
    then some password
    else if k == "RESTIC_CACHE_DIR"
    then non_empty cache_dir
    else none

get-two_vars :
    (k url password : String)
    → HashMap.get k (HashMap.insert password_var password (HashMap.insert repository_var url []))
      ≡ repository_env url password none k
unfolding HashMap.get
get-two_vars k url password =
    rw (HashMap.get-insert k password_var password _, HashMap.get-insert k repository_var url [])
      (ground (arith, vars_differ))

get-three_vars :
    (k url password cache_dir : String)
    → HashMap.get k (
        HashMap.insert cache_var cache_dir
          (HashMap.insert password_var password (HashMap.insert repository_var url [])))
      ≡ (if k == cache_var then some cache_dir else repository_env url password none k)
get-three_vars k url password cache_dir =
    rw (HashMap.get-insert k cache_var cache_dir _, get-two_vars k url password) refl

get-repository_command :
    (self : ResticCommand) (k : String)
    → HashMap.get k (repository_command self).envs
      ≡ repository_env self.repository_url self.repository_password self.cache_dir k
unfolding repository_command
get-repository_command self k = elim (Option-cases self.cache_dir) [
  | inl absent ↦
      rw (absent, repository_command) (get-two_vars k self.repository_url self.repository_password)
  | inr (dir, given) ↦
      rw (given, repository_command)
        (ground (
          arith,
          vars_differ,
          get-two_vars k self.repository_url self.repository_password,
          get-three_vars k self.repository_url self.repository_password dir,
        ))
]

repository_command-program :
    (self : ResticCommand) → (repository_command self).program ≡ self.binary_path
unfolding repository_command
repository_command-program self = ground arith

module _ (J : JsonValue) (show_uuid : Uuid → String) (self : ResticCommand)
    (job : BackupJob J.Json) where
  program-build_backup_command :
      (build_backup_command J show_uuid self job).program ≡ self.binary_path
  program-build_backup_command =
      ap (λ (c : Command). c.program) (build_backup_command-extend J show_uuid self job)
      ∙ ap (λ (c : Command). c.program)
          (add_envs-collect (repository_command self) self.environment)
      ∙ repository_command-program self

  envs-build_backup_command :
      self.environment ≡ []
      → (build_backup_command J show_uuid self job).envs ≡ (repository_command self).envs
  unfolding add_envs
  envs-build_backup_command e =
      ap (λ (c : Command). c.envs) (build_backup_command-extend J show_uuid self job)
      ∙ ap (λ (m : HashMap String String). (add_envs (repository_command self) m).envs) e

abbrev pub binary_name : Bool → String
binary_name windows = if windows then "restic.exe" else "restic"

module _ (windows : Bool) (which : String → Option String) {Json : Type 0} where
  -- What `ResticCommand::new` has taken from the configuration.
  pub record IsBuiltFrom (config : RemoteConfig Json) (self : ResticCommand) : Type 0 where
    pub url : repository_url config ≡ some self.repository_url
    pub password : repository_password config ≡ some self.repository_password
    pub binary : which (binary_name windows) ≡ some self.binary_path
    pub cache_dir : self.cache_dir ≡ repository_cache_dir config
    pub environment : self.environment ≡ []

module _ {SqlxError : Type 0} (windows : Bool) (which : String → Option String) where
  pub new-IsBuiltFrom :
      {Json : Type 0} (config : RemoteConfig Json) (self : ResticCommand)
      → new {SqlxError = SqlxError} windows which config ≡ ok self
      → IsBuiltFrom windows which config self
  unfolding new
  new-IsBuiltFrom config self h = elim (Option-cases (repository_url config)) [
    | inl absent ↦ ground arith
    | inr (url, given) ↦ elim (Option-cases (repository_password config)) [
      | inl absent ↦ ground arith
      | inr (password, known) ↦ elim (Option-cases (which (binary_name windows))) [
        | inl absent ↦ ground arith
        | inr (path, found) ↦ record {
          url = ground arith;
          password = ground arith;
          binary = ground arith;
          cache_dir = ground arith;
          environment = ground arith;
        }
      ]
    ]
  ]

  -- A command that `build_backup_command` makes from a configuration runs the binary found in PATH
  -- for the platform. On top of the environment that it inherits, it sets RESTIC_REPOSITORY to the
  -- setting "repository_url", RESTIC_PASSWORD to the setting "repository_password", RESTIC_CACHE_DIR
  -- to the setting "repository_cache_dir" if there is one and it is not empty, and no other variable.
  pub new-build_backup_command :
      (J : JsonValue) (show_uuid : Uuid → String) (config : RemoteConfig J.Json)
      (self : ResticCommand) (job : BackupJob J.Json)
      → new {SqlxError = SqlxError} windows which config ≡ ok self
      → let cmd = build_backup_command J show_uuid self job in
        (url : String) × (password : String) × (HashMap.get "repository_url" config.settings
          ≡ some url)
        × (HashMap.get "repository_password" config.settings ≡ some password)
        × (which (binary_name windows) ≡ some cmd.program)
        × ((k : String)
            → HashMap.get k cmd.envs
              ≡ repository_env url password (HashMap.get "repository_cache_dir" config.settings) k)
  unfolding repository_url repository_password repository_cache_dir get_setting
  new-build_backup_command J show_uuid config self job h =
      let built = new-IsBuiltFrom config self h in
      (
        self.repository_url,
        self.repository_password,
        built.url,
        built.password,
        built.binary ∙ ap some (sym (program-build_backup_command J show_uuid self job)),
        λ k.
            ap (HashMap.get k) (envs-build_backup_command J show_uuid self job built.environment)
            ∙ get-repository_command self k
            ∙ ap
                (λ (o : Option String).
                  repository_env self.repository_url self.repository_password o k)
                built.cache_dir,
      )
