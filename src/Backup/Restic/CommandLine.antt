-- ===== src/Backup/Restic/CommandLine.antt =====
-- What the command line of a backup holds.
use mathlib.Core.List.{append_assoc, append-nil, foldl}
use rbackup.Base.{
  ◌≡◌, refl, sym, ap, ◌∙◌, String, Option, none, some, List, [], ◌∷◌, ◌++◌, arith, Option-cases,
  inl, inr, string_eq,
}
use rbackup.Base.HashMap
use rbackup.Base.HashMap.{HashMap}
use rbackup.Models.{Uuid, BackupJob}
use rbackup.Models.Tags.{get_restic_tags}
use rbackup.Backup.Restic.{
  Command, arg, env, ResticCommand, repository_command, add_envs, add_args, add_flags,
  add_optional_flags, JsonValue, add_json_args, add_restic_args, build_backup_command,
}

-- `flag a flag b …` for the values of a list.
abbrev pub flags : String → List String → List String
flags flag [] = []
flags flag (a ∷ rest) = flag ∷ a ∷ flags flag rest

abbrev pub listed : {A : Type 0} → Option (List A) → List A
listed none = []
listed (some values) = values

abbrev pub extend : Command → List String → Command
extend cmd more = record cmd { args = cmd.args ++ more }

extend-extend :
    (cmd : Command) (xs ys : List String) → extend (extend cmd xs) ys ≡ extend cmd (xs ++ ys)
extend-extend cmd xs ys =
    ap (λ (l : List String). record cmd { args = l }) (append_assoc cmd.args xs ys)

extend-nil : (cmd : Command) → extend cmd [] ≡ cmd
extend-nil cmd = ap (λ (l : List String). record cmd { args = l }) (append-nil cmd.args)

add_args-extend : (cmd : Command) (xs : List String) → add_args cmd xs ≡ extend cmd xs
unfolding add_args
add_args-extend cmd [] = sym (extend-nil cmd)
add_args-extend cmd (x ∷ xs) = add_args-extend (arg cmd x) xs ∙ extend-extend cmd (x ∷ []) xs

add_flags-extend :
    (flag : String) (cmd : Command) (xs : List String)
    → add_flags flag cmd xs ≡ extend cmd (flags flag xs)
unfolding add_flags
add_flags-extend flag cmd [] = sym (extend-nil cmd)
add_flags-extend flag cmd (x ∷ xs) =
    add_flags-extend flag (arg (arg cmd flag) x) xs
    ∙ extend-extend (arg cmd flag) (x ∷ []) (flags flag xs)
    ∙ extend-extend cmd (flag ∷ []) (x ∷ flags flag xs)

add_optional_flags-extend :
    (flag : String) (cmd : Command) (o : Option (List String))
    → add_optional_flags flag cmd o ≡ extend cmd (flags flag (listed o))
add_optional_flags-extend flag cmd none = sym (extend-nil cmd)
add_optional_flags-extend flag cmd (some xs) = add_flags-extend flag cmd xs

module _ (J : JsonValue) where
  -- The texts among JSON values.
  pub texts : List J.Json → List String
  texts [] = []
  texts (v ∷ rest) = let more = texts rest in elim (J.as_str v) [ none ↦ more | some a ↦ a ∷ more ]

  add_json_args-extend :
      (cmd : Command) (vs : List J.Json) → add_json_args J cmd vs ≡ extend cmd (texts vs)
  unfolding add_json_args texts
  add_json_args-extend cmd [] = sym (extend-nil cmd)
  add_json_args-extend cmd (v ∷ vs) = elim (Option-cases (J.as_str v)) [
    | inl absent ↦ rw (absent, add_json_args) (rw (absent, texts) (add_json_args-extend cmd vs))
    | inr (a, given) ↦
        rw (given, add_json_args)
          (rw (given, texts)
            (add_json_args-extend (arg cmd a) vs ∙ extend-extend cmd (a ∷ []) (texts vs)))
  ]

  add_restic_args-extend :
      (cmd : Command) (v : J.Json)
      → add_restic_args J cmd v ≡ extend cmd (texts (listed (J.as_array v)))
  unfolding add_restic_args texts
  add_restic_args-extend cmd v = elim (Option-cases (J.as_array v)) [
    | inl absent ↦ rw (absent, add_restic_args) (sym (extend-nil cmd))
    | inr (vs, given) ↦ rw (given, add_restic_args) (add_json_args-extend cmd vs)
  ]

-- The arguments behind "backup --json", in the order of the job's fields.
abbrev pub job_args : (J : JsonValue) → (Uuid → String) → BackupJob J.Json → List String
job_args J show_uuid job =
    job.source_paths
    ++ (flags "--exclude" (listed job.exclude_patterns)
        ++ (flags "--tag" (get_restic_tags show_uuid job)
            ++ (flags "--tag" (listed job.tags) ++ texts J (listed (J.as_array job.restic_args)))))

pub add_envs-collect :
    (cmd : Command) (m : HashMap String String)
    → add_envs cmd m ≡ record cmd { envs = foldl HashMap.add_pair cmd.envs m }
unfolding add_envs
add_envs-collect cmd [] = refl
add_envs-collect cmd ((k, v) ∷ m) = add_envs-collect (env cmd k v) m

pub repository_command-args : (self : ResticCommand) → (repository_command self).args ≡ []
unfolding repository_command
repository_command-args self = ground arith

module _ (J : JsonValue) (show_uuid : Uuid → String) (self : ResticCommand) where
  pub build_backup_command-extend :
      (job : BackupJob J.Json)
      → build_backup_command J show_uuid self job
        ≡ extend
            (add_envs (repository_command self) self.environment)
            ("backup" ∷ "--json" ∷ job_args J show_uuid job)
  unfolding build_backup_command
  build_backup_command-extend job = simp (
    add_restic_args-extend, add_optional_flags-extend, add_flags-extend, add_args-extend,
    append_assoc,
  )

  no_args : (add_envs (repository_command self) self.environment).args ≡ []
  no_args =
      ap (λ (c : Command). c.args) (add_envs-collect (repository_command self) self.environment)
      ∙ repository_command-args self

  -- The arguments of a backup: "backup --json", the source paths, an `--exclude` for each pattern, a
  -- `--tag` for each of the job's own tags and then for each custom one, and the texts among the
  -- further arguments, in this order and with nothing else.
  pub args-build_backup_command :
      (job : BackupJob J.Json)
      → (build_backup_command J show_uuid self job).args
        ≡ "backup" ∷ "--json" ∷ job_args J show_uuid job
  args-build_backup_command job =
      ap (λ (c : Command). c.args) (build_backup_command-extend job)
      ∙ ap (λ (l : List String). l ++ ("backup" ∷ "--json" ∷ job_args J show_uuid job)) no_args
