-- ===== src/Models/Tests.antt =====
-- The tags of concrete jobs, and the theorem on tags at them.
use rbackup.Base.{◌≡◌, refl, ap, String, none, some, [], ◌∷◌, arith, zero, suc}
use rbackup.Models.{Uuid, BackupJob}
use rbackup.Models.Tags.{get_restic_tags}
use rbackup.Models.Tags.Identity.{get_restic_tags-injective}
use rbackup.Samples.{SampleJson}
use rbackup.Samples.Program.{job}

-- One character for each unit of the id.
abbrev unary : Uuid → String
unary zero = ""
unary (suc n) = String.◌∷◌ "1" (unary n)

unary-injective : (i j : Uuid) → unary i ≡ unary j → i ≡ j
unary-injective zero zero h = refl
unary-injective zero (suc j) h = cc
unary-injective (suc i) zero h = cc
unary-injective (suc i) (suc j) h = ap suc (unary-injective i j (ground arith))

abbrev copy : BackupJob SampleJson
copy = record job { tags = none }

full_tags :
    get_restic_tags unary (record job { origin_name = some "device1"; account_id = some 2 })
    ≡ "backup:1111111" ∷ "backup_name=home" ∷ "origin=device1" ∷ "account_id=11" ∷ []
unfolding get_restic_tags
full_tags = refl

get_restic_tags-injective_example : (job.id ≡ copy.id) × (job.name ≡ copy.name)
unfolding get_restic_tags
get_restic_tags-injective_example = get_restic_tags-injective unary unary-injective job copy refl
