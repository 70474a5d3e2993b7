-- ===== src/Backup/Repository.antt =====
-- src/backup/restic.rs: `check_repository`.
use rbackup.Base.{
  ◌≡◌, refl, ◌↔◌, ap, ◌∙◌, String, ◌<>◌, not, ◌∷◌, ◌⊎◌, inl, inr, some, arith, length, option_eq,
  int_eq, if◌then◌else◌,
}
use rbackup.Base.Int.{pos}
use rbackup.Error.{Result, ok, err, AppError, execution_failed}
use rbackup.External.{Externals, Output, success}
use rbackup.Backup.Restic.{ResticCommand, check_command}
use rbackup.Backup.Execute.{process_result}
use rbackup.Database.World.{State, Action}

module _ (X : Externals) where
  -- The result, from that of the process.
  unfoldable pub judge : Result X.SqlxError Output → Result X.SqlxError (Unit {0})
  judge (err e) = err e
  judge (ok output) =
      if not (success output)
      then err (
          AppError.backup
            (execution_failed ("Repository check failed: " <> X.from_utf8_lossy output.stderr)))
      else ok tt

  unfoldable pub check_repository : ResticCommand → Action X (Unit {0})
  check_repository self w =
      let command = check_command self in
      (
        judge (process_result X (X.run command (length w.processes))),
        record w { processes = command ∷ w.processes },
      )

  judge-ok :
      (p : String ⊎ Output)
      → (judge (process_result X p) ≡ ok tt)
        ↔ ((output : Output) × (p ≡ inr output) × (output.code ≡ some (pos 0)))
  unfolding judge process_result success
  judge-ok (inl e) = (λ h. cc, λ (output, same, code). cc)
  judge-ok (inr output) = (
    λ h. (output, refl, ground arith),
    λ (output', same, code).
        let e : output ≡ output' = ground arith in
        let code' : output.code ≡ some (pos 0) = ap (λ (o : Output). o.code) e ∙ code in
        ground arith,
  )

  -- A check of the repository runs one process, `snapshots`, and reads and writes no table; it
  -- passes exactly if the process could be started and ended with exit code 0.
  pub check_repository-ok :
      (self : ResticCommand) (w : State X)
      → let (r, w') = check_repository self w in
        (w'.tables ≡ w.tables)
        × (w'.processes ≡ check_command self ∷ w.processes)
        × ((r ≡ ok tt) ↔ (
            (output : Output) × (X.run (check_command self) (length w.processes) ≡ inr output)
            × (output.code ≡ some (pos 0))))
  unfolding check_repository
  check_repository-ok self w =
      (refl, refl, judge-ok (X.run (check_command self) (length w.processes)))
