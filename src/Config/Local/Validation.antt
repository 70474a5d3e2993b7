-- ===== src/Config/Local/Validation.antt =====
-- Which files are accepted.
use rbackup.Base.{
  ◌≡◌, refl, ap, subst, ◌∙◌, ◌≢◌, ◌↔◌, String, true, ◌⊎◌, inl, inr, arith, is_empty, string_eq,
}
use rbackup.Error.{Result, ok, err, AppError, and_then}
use rbackup.Config.Local.{LocalConfig, mapped, validate, from_file}

-- The fields that must not be empty.
pub record IsValid (c : LocalConfig) : Type 0 where
  pub device_id : c.device.id ≢ ""
  pub host : c.database.host ≢ ""
  pub user : c.database.user ≢ ""
  pub log_file : c.client.log_file ≢ ""

is_empty-true : (s : String) → is_empty s ≡ true → s ≡ ""
is_empty-true String.[] h = refl
is_empty-true (String.◌∷◌ c s) h = cc

is_empty-nil : (s : String) → s ≡ "" → is_empty s ≡ true
is_empty-nil s h = rw h refl

module _ {SqlxError : Type 0} where
  validate-ok : (c : LocalConfig) → validate {SqlxError = SqlxError} c ≡ ok tt → IsValid c
  unfolding validate
  validate-ok c h = record {
    device_id = λ e. ground (arith, is_empty-nil c.device.id e);
    host = λ e. ground (arith, is_empty-nil c.database.host e);
    user = λ e. ground (arith, is_empty-nil c.database.user e);
    log_file = λ e. ground (arith, is_empty-nil c.client.log_file e);
  }

  IsValid-validate : (c : LocalConfig) → IsValid c → validate {SqlxError = SqlxError} c ≡ ok tt
  unfolding validate
  IsValid-validate c v =
      let device_id = v.device_id in
      let host = v.host in
      let user = v.user in
      let log_file = v.log_file in
      ground (
        arith,
        is_empty-true c.device.id,
        is_empty-true c.database.host,
        is_empty-true c.database.user,
        is_empty-true c.client.log_file,
      )

  checked-ok :
      (r : Result SqlxError (Unit {0})) (d c : LocalConfig)
      → and_then r (λ _. ok d) ≡ ok c
      → (r ≡ ok tt) × (d ≡ c)
  checked-ok (ok tt) d c h = (refl, ground arith)
  checked-ok (err e) d c h = cc

  parsed-ok :
      (parsed : String ⊎ LocalConfig) (f : String → AppError SqlxError) (c : LocalConfig)
      → and_then (mapped parsed f) (λ d. and_then (validate d) λ _. ok d) ≡ ok c
      → (parsed ≡ inr c) × IsValid c
  parsed-ok (inl e) f c h = cc
  parsed-ok (inr d) f c h =
      let (valid, same) = checked-ok (validate d) d c h in
      (ap inr same, subst IsValid same (validate-ok d valid))

  IsValid-parsed :
      (parsed : String ⊎ LocalConfig) (f : String → AppError SqlxError) (c : LocalConfig)
      → parsed ≡ inr c
      → IsValid c
      → and_then (mapped parsed f) (λ d. and_then (validate d) λ _. ok d) ≡ ok c
  IsValid-parsed parsed f c e v = rw e (rw (IsValid-validate c v) refl)

  -- `from_file` returns a configuration exactly if the file can be read, parses to it, and the
  -- device's id, the host and the user of the database, and the name of the log file are not empty.
  pub from_file_iff :
      (content : String ⊎ String) (from_str : String → String ⊎ LocalConfig) (c : LocalConfig)
      → (from_file {SqlxError = SqlxError} content from_str ≡ ok c)
        ↔ ((text : String) × (content ≡ inr text) × (from_str text ≡ inr c) × IsValid c)
  unfolding from_file
  from_file_iff (inl e) from_str c = (λ h. cc, λ (text, read, parsed, valid). cc)
  from_file_iff (inr text) from_str c = (
    λ h. let (parsed, valid) = parsed-ok (from_str text) _ c h in (text, refl, parsed, valid),
    λ (text', read, parsed, valid).
        let same : text ≡ text' = ground arith in
        IsValid-parsed (from_str text) _ c (ap from_str same ∙ parsed) valid,
  )
