-- ===== src/Database/World.antt =====
-- The tables, and the state that a run of the program threads through its calls.
use rbackup.Base.{ℕ, suc, ◌≡◌, refl, ◌≢◌, arith, List, ◌⊎◌, inl, inr}
use rbackup.Error.{Result, ok, err, AppError, from_sqlx}
use rbackup.Models.{DateTime, Device, BackupJob, Schedule, Run, Setting}
use rbackup.Backup.Restic.{Command}
use rbackup.External.{Externals, Fate, served, refused, lost}

pub record Tables (Json : Type 0) : Type 0 where
  pub devices : List (Device Json)
  pub backup_jobs : List (BackupJob Json)
  pub schedules : List (Schedule Json)
  pub runs : List (Run Json)
  pub settings : List Setting
  -- The sequence behind the ids of `runs`.
  pub next_run_id : ℕ

-- The tables, the numbers of queries and of clock readings so far, and the processes run so far,
-- the last one first.
pub record World (Json : Type 0) : Type 0 where
  pub tables : Tables Json
  pub queries : ℕ
  pub readings : ℕ
  pub processes : List Command

-- An `async fn` that returns `Result<A>` and works on a state `S`.
abbrev pub Stateful : Type 0 → Type 0 → Type 0 → Type 0
Stateful S SqlxError A = S → Result SqlxError A × S

module _ {S SqlxError : Type 0} where
  abbrev pub pure : {A : Type 0} → A → Stateful S SqlxError A
  pure a w = (ok a, w)

  abbrev pub fail : {A : Type 0} → AppError SqlxError → Stateful S SqlxError A
  fail e w = (err e, w)

  -- A `Result` that is at hand.
  abbrev pub from_result : {A : Type 0} → Result SqlxError A → Stateful S SqlxError A
  from_result r w = (r, w)

  abbrev pub resume :
      {A B : Type 0}
      → Result SqlxError A × S
      → (A → Stateful S SqlxError B)
      → Result SqlxError B × S
  resume (ok a, w) f = f a w
  resume (err e, w) f = (err e, w)

  -- `?`
  infixl 5 ◌>>=◌ ◌>>◌
  abbrev pub ◌>>=◌ :
      {A B : Type 0}
      → Stateful S SqlxError A
      → (A → Stateful S SqlxError B)
      → Stateful S SqlxError B
  ◌>>=◌ m f w = resume (m w) f

  abbrev pub ◌>>◌ :
      {A : Type 0}
      → Stateful S SqlxError (Unit {0})
      → Stateful S SqlxError A
      → Stateful S SqlxError A
  m >> k = m >>= λ _. k

  -- `match m.await { … }`: what follows is given the result and goes on in either case.
  abbrev pub attempt :
      {A B : Type 0}
      → Stateful S SqlxError A
      → (Result SqlxError A → Stateful S SqlxError B)
      → Stateful S SqlxError B
  attempt m f w = let (r, w') = m w in f r w'

  -- What a successful chain says of its parts.
  pub resume-eq-ok :
      {A B : Type 0} (p : Result SqlxError A × S) (f : A → Stateful S SqlxError B) (b : B) (w : S)
      → resume p f ≡ (ok b, w)
      → (a : A) × (w' : S) × (p ≡ (ok a, w')) × (f a w' ≡ (ok b, w))
  resume-eq-ok (ok a, w') f b w h = (a, w', refl, h)
  resume-eq-ok (err e, w') f b w h = cc

  -- A property of states that each part of a chain keeps.
  pub resume-keeps :
      {A B : Type 0} (P : S → Type 0) (p : Result SqlxError A × S) (f : A → Stateful S SqlxError B)
      → P p.1
      → ((a : A) (s : S) → P s → P (f a s).1)
      → P (resume p f).1
  resume-keeps P (ok a, s) f h step = step a s h
  resume-keeps P (err e, s) f h step = h

  pub resume-fail :
      {A B : Type 0} (p : Result SqlxError A × S) (e : AppError SqlxError) (b : B) (w : S)
      → resume p (λ _. fail e) ≢ (ok b, w)
  resume-fail (ok a, w') e b w h = cc
  resume-fail (err e', w') e b w h = cc

  pub resume-pure :
      {B : Type 0} (p : Result SqlxError (Unit {0}) × S) (a b : B) (w : S)
      → resume p (λ _. pure a) ≡ (ok b, w)
      → (p ≡ (ok tt, w)) × (b ≡ a)
  resume-pure (ok tt, w') a b w h = (ground arith, ground arith)
  resume-pure (err e', w') a b w h = cc

module _ (X : Externals) where
  abbrev pub State : Type 0
  State = World X.json.Json

  abbrev pub Action : Type 0 → Type 0
  Action A = Stateful State X.SqlxError A

  -- `Utc::now()`
  abbrev pub utc_now : Action DateTime
  utc_now w = (ok (X.clock w.readings), record w { readings = suc w.readings })

-- A statement sees the time of its transaction, and yields an answer and the tables after it, or it
-- is rejected.
abbrev pub Statement : Externals → Type 0 → Type 0
Statement X A = DateTime → Tables X.json.Json → X.SqlxError ⊎ (A × Tables X.json.Json)

module _ (X : Externals) where
  -- The answer to a query and the state after it, from what the statement yields and the fate.
  unfoldable pub answer :
      {A : Type 0} → X.SqlxError ⊎ (A × Tables X.json.Json) → Fate X.SqlxError → Action X A
  answer (inr (a, t)) served w = (ok a, record w { tables = t; queries = suc w.queries })
  answer (inl e) served w = (err (from_sqlx e), record w { queries = suc w.queries })
  answer (inr (a, t)) (refused e) w = (err (from_sqlx e), record w { queries = suc w.queries })
  answer (inl e') (refused e) w = (err (from_sqlx e), record w { queries = suc w.queries })
  answer (inr (a, t)) (lost e) w =
      (err (from_sqlx e), record w { tables = t; queries = suc w.queries })
  answer (inl e') (lost e) w = (err (from_sqlx e), record w { queries = suc w.queries })

  -- `query.bind(..).fetch(pool).await?`
  unfoldable pub query : {A : Type 0} → Statement X A → Action X A
  unfolding answer
  query statement w = answer (statement (X.server_clock w.queries) w.tables) (X.fate w.queries) w
