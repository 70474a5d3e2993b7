-- ===== src/Database/Queries.antt =====
-- What an answer to a query says of the tables, and what any fate of it may change.
use rbackup.Base.{ℕ, suc, ◌≡◌, refl, ap, ◌∙◌, ◌⊎◌, inl, inr, int_eq}
use rbackup.Error.{ok}
use rbackup.External.{Externals, Fate, served, refused, lost}
use rbackup.Database.World.{Tables, State, Statement, answer, query}

module _ (X : Externals) where
  answer-ok :
      {A : Type 0} (r : X.SqlxError ⊎ (A × Tables X.json.Json)) (f : Fate X.SqlxError) (w : State X)
      (a : A) (w' : State X)
      → answer X r f w ≡ (ok a, w')
      → (t : Tables X.json.Json) × (r ≡ inr (a, t))
        × (w' ≡ record w { tables = t; queries = suc w.queries })
  unfolding answer
  answer-ok (inr (b, t)) served w a w' h = (t, cc, cc)
  answer-ok (inl e) served w a w' h = cc
  answer-ok (inr (b, t)) (refused e) w a w' h = cc
  answer-ok (inl e') (refused e) w a w' h = cc
  answer-ok (inr (b, t)) (lost e) w a w' h = cc
  answer-ok (inl e') (lost e) w a w' h = cc

  -- A query that was answered has been carried out.
  pub query-ok :
      {A : Type 0} (st : Statement X A) (w : State X) (a : A) (w' : State X)
      → query X st w ≡ (ok a, w')
      → (t : Tables X.json.Json) × (st (X.server_clock w.queries) w.tables ≡ inr (a, t))
        × (w' ≡ record w { tables = t; queries = suc w.queries })
  unfolding query
  query-ok st w a w' h =
      answer-ok (st (X.server_clock w.queries) w.tables) (X.fate w.queries) w a w' h

  -- Whatever its fate, a query leaves the tables alone or carries its statement out.
  answer-tables :
      {A : Type 0} (r : X.SqlxError ⊎ (A × Tables X.json.Json)) (f : Fate X.SqlxError) (w : State X)
      (P : Tables X.json.Json → Type 0)
      → P w.tables
      → ((a : A) (t : Tables X.json.Json) → r ≡ inr (a, t) → P t)
      → P (answer X r f w).1.tables
  unfolding answer
  answer-tables (inr (b, t)) served w P before after = after b t refl
  answer-tables (inl e) served w P before after = before
  answer-tables (inr (b, t)) (refused e) w P before after = before
  answer-tables (inl e') (refused e) w P before after = before
  answer-tables (inr (b, t)) (lost e) w P before after = after b t refl
  answer-tables (inl e') (lost e) w P before after = before

  pub query-tables :
      {A : Type 0} (st : Statement X A) (w : State X) (P : Tables X.json.Json → Type 0)
      → P w.tables
      → ((a : A) (t : Tables X.json.Json)
          → st (X.server_clock w.queries) w.tables ≡ inr (a, t)
          → P t)
      → P (query X st w).1.tables
  unfolding query
  query-tables st w P before after =
      answer-tables (st (X.server_clock w.queries) w.tables) (X.fate w.queries) w P before after

  answer-readings :
      {A : Type 0} (r : X.SqlxError ⊎ (A × Tables X.json.Json)) (f : Fate X.SqlxError) (w : State X)
      → (answer X r f w).1.readings ≡ w.readings
  unfolding answer
  answer-readings (inr (b, t)) served w = refl
  answer-readings (inl e) served w = refl
  answer-readings (inr (b, t)) (refused e) w = refl
  answer-readings (inl e') (refused e) w = refl
  answer-readings (inr (b, t)) (lost e) w = refl
  answer-readings (inl e') (lost e) w = refl

  -- A query does not read the client's clock.
  pub query-readings :
      {A : Type 0} (st : Statement X A) (w : State X) → (query X st w).1.readings ≡ w.readings
  unfolding query
  query-readings st w =
      answer-readings (st (X.server_clock w.queries) w.tables) (X.fate w.queries) w

  answer-served :
      {A : Type 0} (a : A) (t : Tables X.json.Json) (f : Fate X.SqlxError) (w : State X)
      → f ≡ served
      → answer X (inr (a, t)) f w ≡ (ok a, record w { tables = t; queries = suc w.queries })
  unfolding answer
  answer-served a t served w h = refl
  answer-served a t (refused e) w h = cc
  answer-served a t (lost e) w h = cc

-- Every query is answered.
abbrev pub IsServed : Externals → Type 0
IsServed X = (n : ℕ) → X.fate n ≡ served

module _ (X : Externals) (all_served : IsServed X) where
  pub query-served :
      {A : Type 0} (st : Statement X A) (w : State X) (a : A) (t : Tables X.json.Json)
      → st (X.server_clock w.queries) w.tables ≡ inr (a, t)
      → query X st w ≡ (ok a, record w { tables = t; queries = suc w.queries })
  unfolding query
  query-served st w a t e =
      ap (λ (r : X.SqlxError ⊎ _). answer X r (X.fate w.queries) w) e
      ∙ answer-served X a t (X.fate w.queries) w (all_served w.queries)
