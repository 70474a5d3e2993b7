-- ===== src/Models/Tags/Identity.antt =====
-- What the tags of a snapshot say of its job.
use text.Mathlib.TextLemmas.{append_cancel_left}
use rbackup.Base.{◌≡◌, refl, sym, ◌∙◌, String, ◌<>◌, List, [], ◌∷◌, inl, inr, Option-cases}
use rbackup.Models.{Uuid, BackupJob}
use rbackup.Models.Tags.{get_restic_tags}

module _ (show_uuid : Uuid → String) {Json : Type 0} where
  tags_start :
      (job : BackupJob Json)
      → (more : List String) × (get_restic_tags show_uuid job
          ≡ ("backup:" <> show_uuid job.id) ∷ ("backup_name=" <> job.name) ∷ more)
  unfolding get_restic_tags
  tags_start job = elim (Option-cases job.origin_name) [
    | inl no_origin ↦ elim (Option-cases job.account_id) [
      | inl no_account ↦ ([], simp (no_origin, no_account) refl)
      | inr (account, given) ↦
          (("account_id=" <> show_uuid account) ∷ [], simp (no_origin, given) refl)
    ]
    | inr (origin, known) ↦ elim (Option-cases job.account_id) [
      | inl no_account ↦ (("origin=" <> origin) ∷ [], simp (known, no_account) refl)
      | inr (account, given) ↦ (
        ("origin=" <> origin) ∷ ("account_id=" <> show_uuid account) ∷ [],
        simp (known, given) refl,
      )
    ]
  ]

  -- Where different ids have different texts, jobs with the same tags have the same id and the same
  -- name.
  pub get_restic_tags-injective :
      ((i j : Uuid) → show_uuid i ≡ show_uuid j → i ≡ j)
      → (a b : BackupJob Json) → get_restic_tags show_uuid a ≡ get_restic_tags show_uuid b
      → (a.id ≡ b.id) × (a.name ≡ b.name)
  get_restic_tags-injective injective a b h =
      let (more_a, tags_a) = tags_start a in
      let (more_b, tags_b) = tags_start b in
      let same = sym tags_a ∙ h ∙ tags_b in
      let ids : "backup:" <> show_uuid a.id ≡ "backup:" <> show_uuid b.id = cc in
      let names : "backup_name=" <> a.name ≡ "backup_name=" <> b.name = cc in
      (
        injective a.id b.id (append_cancel_left "backup:" _ _ ids),
        append_cancel_left "backup_name=" _ _ names,
      )
