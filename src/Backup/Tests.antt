-- ===== src/Backup/Tests.antt =====
-- A check of a concrete repository.
use rbackup.Base.{◌≡◌, refl, option_eq, int_eq}
use rbackup.Error.{ok}
use rbackup.External.{success}
use rbackup.Backup.Execute.{process_result}
use rbackup.Backup.Repository.{check_repository, judge}
use rbackup.Samples.Program.{command, all_served, world}

repository_is_there : (check_repository all_served command world).0 ≡ ok tt
unfolding check_repository judge process_result success option_eq int_eq
    native.Mathlib.Decide.ℕ_discrete
repository_is_there = refl
