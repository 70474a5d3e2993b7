-- ===== src/Models/Tags.antt =====
-- `BackupJob::get_restic_tags`: the tags that mark a snapshot as one of a job.
pub mod Identity
use rbackup.Base.{String, ◌<>◌, Option, none, some, List, [], ◌∷◌, ◌++◌}
use rbackup.Models.{Uuid, BackupJob}

-- `if let Some(a) = o { tags.push(f(a)) }`
abbrev push_some : {A : Type 0} → Option A → (A → String) → List String → List String
push_some none f tags = tags
push_some (some a) f tags = tags ++ (f a ∷ [])

-- `show_uuid` is the `Display` of the library's `Uuid`.
module _ (show_uuid : Uuid → String) {Json : Type 0} where
  unfoldable pub get_restic_tags : BackupJob Json → List String
  get_restic_tags job =
      let tags : List String =
        ("backup:" <> show_uuid job.id) ∷ ("backup_name=" <> job.name) ∷ [] in
      let with_origin = push_some job.origin_name (λ name. "origin=" <> name) tags in
      push_some job.account_id (λ id. "account_id=" <> show_uuid id) with_origin
