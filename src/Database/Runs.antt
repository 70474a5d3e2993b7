-- ===== src/Database/Runs.antt =====
-- Runs are found by their ids, and a statement on one run leaves the others alone.
use rbackup.Base.{
  ℕ, suc, ◌<◌, ◌≡◌, refl, sym, ap, subst, ◌∙◌, ◌≢◌, String, Bool, true, false, Option, none, some,
  List, [], ◌∷◌, ◌++◌, inr, arith, All, All-append, ◌==◌, int_eq, if◌then◌else◌,
}
use rbackup.Base.Int.{ℤ, pos}
use rbackup.Error.{Result, ok}
use rbackup.Models.{Uuid, DateTime, Run}
use rbackup.External.{Externals}
use rbackup.Database.World.{Tables, State}
use rbackup.Database.Writes.{
  update_where, RunUpdate, apply_update, new_run, has_references, run_insertion, create_run,
  update_run,
}
use rbackup.Database.Queries.{query-ok, query-tables, IsServed, query-served}

module _ {Json : Type 0} where
  -- The row of `runs` with an id: the first one.
  unfoldable pub find_run : ℤ → List (Run Json) → Option (Run Json)
  find_run id [] = none
  find_run id (r ∷ rest) = if r.id == id then some r else find_run id rest

  -- The ids of all rows were taken from the sequence before `n`.
  abbrev pub IsOld : ℕ → Run Json → Type 0
  IsOld n r = (m : ℕ) × (r.id ≡ pos m) × (m < n)

  pub find_run-append_new :
      (n : ℕ) (runs : List (Run Json)) (r : Run Json)
      → All (IsOld n) runs
      → r.id ≡ pos n
      → find_run (pos n) (runs ++ (r ∷ [])) ≡ some r
  unfolding find_run
  find_run-append_new n [] r old e = ground arith
  find_run-append_new n (s ∷ runs) r ((m, e', lt), old) e =
      ground (arith, find_run-append_new n runs r old e)

  pub find_run-append_ne :
      (id : ℤ) (runs : List (Run Json)) (r : Run Json)
      → r.id ≢ id
      → find_run id (runs ++ (r ∷ [])) ≡ find_run id runs
  unfolding find_run
  find_run-append_ne id [] r h = ground arith
  find_run-append_ne id (s ∷ runs) r h = ground (arith, find_run-append_ne id runs r h)

  module _ (change : Run Json → Run Json) (keeps : (r : Run Json) → (change r).id ≡ r.id) where
    pub find_run-update_self :
        (id : ℤ) (runs : List (Run Json)) {r : Run Json}
        → find_run id runs ≡ some r
        → find_run id (update_where (λ (s : Run Json). s.id == id) change runs) ≡ some (change r)
    unfolding find_run
    find_run-update_self id [] h = cc
    find_run-update_self id (s ∷ runs) {r} h =
        ground (arith, keeps s, find_run-update_self id runs {r = r})

    pub find_run-update_ne :
        (id j : ℤ) (runs : List (Run Json))
        → j ≢ id
        → find_run j (update_where (λ (s : Run Json). s.id == id) change runs) ≡ find_run j runs
    unfolding find_run
    find_run-update_ne id j [] h = refl
    find_run-update_ne id j (s ∷ runs) h = ground (arith, keeps s, find_run-update_ne id j runs h)

    keeps_if : (b : Bool) (r : Run Json) → (if b then change r else r).id ≡ r.id
    keeps_if true r = keeps r
    keeps_if false r = refl

    pub IsOld-update :
        (n : ℕ) (id : ℤ) (runs : List (Run Json))
        → All (IsOld n) runs
        → All (IsOld n) (update_where (λ (s : Run Json). s.id == id) change runs)
    IsOld-update n id [] h = tt
    IsOld-update n id (s ∷ runs) ((m, e, lt), h) =
        ((m, keeps_if (s.id == id) s ∙ e, lt), IsOld-update n id runs h)

  -- The next id of the sequence is not in the table.
  pub find_run-fresh :
      (n : ℕ) (runs : List (Run Json)) → All (IsOld n) runs → find_run (pos n) runs ≡ none
  unfolding find_run
  find_run-fresh n [] h = refl
  find_run-fresh n (r ∷ runs) ((m, e, lt), h) = ground (arith, find_run-fresh n runs h)

  IsOld-suc : (n : ℕ) (runs : List (Run Json)) → All (IsOld n) runs → All (IsOld (suc n)) runs
  IsOld-suc n [] h = tt
  IsOld-suc n (r ∷ runs) ((m, e, lt), h) = ((m, e, omega arith), IsOld-suc n runs h)

-- The tables' invariant: the sequence is ahead of every id.
abbrev pub IsFresh : {Json : Type 0} → Tables Json → Type 0
IsFresh t = All (IsOld t.next_run_id) t.runs

module _ (X : Externals) (job_id : Uuid) (device_id triggered_by : String) where
  abbrev pub inserted : DateTime → Tables X.json.Json → Run X.json.Json
  inserted now t = new_run X t.next_run_id job_id device_id triggered_by now

  abbrev pub after_insertion : DateTime → Tables X.json.Json → Tables X.json.Json
  after_insertion now t = record t {
    runs = t.runs ++ (inserted now t ∷ []);
    next_run_id = suc t.next_run_id;
  }

  pub run_insertion-inr :
      (now : DateTime) (t : Tables X.json.Json) (id : ℤ) (t' : Tables X.json.Json)
      → run_insertion X job_id device_id triggered_by now t ≡ inr (id, t')
      → (id ≡ pos t.next_run_id) × (t' ≡ after_insertion now t)
  unfolding run_insertion
  run_insertion-inr now t id t' h = ground arith

  pub id-inserted :
      (now : DateTime) (t : Tables X.json.Json) → (inserted now t).id ≡ pos t.next_run_id
  unfolding new_run
  id-inserted now t = refl

  pub after_insertion-IsFresh :
      (now : DateTime) (t : Tables X.json.Json) → IsFresh t → IsFresh (after_insertion now t)
  after_insertion-IsFresh now t h =
      All-append (IsOld (suc t.next_run_id)) t.runs (inserted now t ∷ [])
        (IsOld-suc t.next_run_id t.runs h) ((t.next_run_id, id-inserted now t, omega arith), tt)

  -- A run that was created stands in the table under the id that is returned.
  pub create_run-ok :
      (w : State X) (id : ℤ) (w' : State X)
      → IsFresh w.tables
      → create_run X job_id device_id triggered_by w ≡ (ok id, w')
      → (id ≡ pos w.tables.next_run_id)
        × (find_run id w'.tables.runs ≡ some (inserted (X.server_clock w.queries) w.tables))
        × IsFresh w'.tables
        × (w' ≡ record w {
          tables = after_insertion (X.server_clock w.queries) w.tables;
          queries = suc w.queries;
        })
  unfolding create_run
  create_run-ok w id w' fresh h =
      let now = X.server_clock w.queries in
      let (t, e, same) = query-ok X (run_insertion X job_id device_id triggered_by) w id w' h in
      let (id_is, t_is) = run_insertion-inr now w.tables id t e in
      let whole : w' ≡ record w { tables = after_insertion now w.tables; queries = suc w.queries } =
        same
        ∙ ap (λ (s : Tables X.json.Json). record w { tables = s; queries = suc w.queries }) t_is in
      (
        id_is,
        ap (find_run id) (ap (λ (s : State X). s.tables.runs) whole)
            ∙ ap (λ (i : ℤ). find_run i (w.tables.runs ++ (inserted now w.tables ∷ []))) id_is
            ∙ find_run-append_new w.tables.next_run_id w.tables.runs (inserted now w.tables) fresh
                (id-inserted now w.tables),
        subst (λ (s : State X). IsFresh s.tables) (sym whole)
            (after_insertion-IsFresh now w.tables fresh),
        whole,
      )

  -- A new run changes no other one, also where the query fails.
  pub find_run-create_run :
      (w : State X) (j : ℤ)
      → j ≢ pos w.tables.next_run_id
      → find_run j (create_run X job_id device_id triggered_by w).1.tables.runs
        ≡ find_run j w.tables.runs
  unfolding create_run new_run
  find_run-create_run w j other =
      query-tables X (run_insertion X job_id device_id triggered_by) w
        (λ t. find_run j t.runs ≡ find_run j w.tables.runs) refl
        λ id t e.
          let (id_is, t_is) = run_insertion-inr (X.server_clock w.queries) w.tables id t e in
          ap (λ (s : Tables X.json.Json). find_run j s.runs) t_is
          ∙ find_run-append_ne j w.tables.runs (inserted (X.server_clock w.queries) w.tables)
              (λ same. other (sym same))

module _ (X : Externals) (run_id : ℤ) (u : RunUpdate) where
  pub id-apply_update : (r : Run X.json.Json) → (apply_update X u r).id ≡ r.id
  unfolding apply_update
  id-apply_update r = refl

  abbrev pub changed : Tables X.json.Json → Tables X.json.Json
  changed t = record t {
    runs = update_where (λ (r : Run X.json.Json). r.id == run_id) (apply_update X u) t.runs;
  }

  pub update_run-ok :
      (w : State X) (w' : State X) {r : Run X.json.Json}
      → find_run run_id w.tables.runs ≡ some r
      → update_run X run_id u w ≡ (ok tt, w')
      → find_run run_id w'.tables.runs ≡ some (apply_update X u r)
  unfolding update_run
  update_run-ok w w' {r} found h =
      let (t, e, same) = query-ok X _ w tt w' h in
      let carried : changed w.tables ≡ t = cc e in
      ap (λ (s : State X). find_run run_id s.tables.runs) same
      ∙ ap (λ (s : Tables X.json.Json). find_run run_id s.runs) (sym carried)
      ∙ find_run-update_self (apply_update X u) id-apply_update run_id w.tables.runs found

  pub find_run-update_run :
      (w : State X) (j : ℤ)
      → j ≢ run_id
      → find_run j (update_run X run_id u w).1.tables.runs ≡ find_run j w.tables.runs
  unfolding update_run
  find_run-update_run w j other =
      query-tables X _ w (λ t. find_run j t.runs ≡ find_run j w.tables.runs) refl
        λ a t e.
          let carried : changed w.tables ≡ t = cc e in
          ap (λ (s : Tables X.json.Json). find_run j s.runs) (sym carried)
          ∙ find_run-update_ne (apply_update X u) id-apply_update run_id j w.tables.runs other

module _ (X : Externals) (all_served : IsServed X) where
  pub create_run-served :
      (job_id : Uuid) (device_id triggered_by : String) (w : State X)
      → has_references X job_id device_id w.tables ≡ true
      → create_run X job_id device_id triggered_by w ≡ (
        ok (pos w.tables.next_run_id),
        record w {
          tables =
              after_insertion X job_id device_id triggered_by (X.server_clock w.queries) w.tables;
          queries = suc w.queries;
        },
      )
  unfolding create_run run_insertion
  create_run-served job_id device_id triggered_by w known =
      query-served X all_served (run_insertion X job_id device_id triggered_by) w _ _
        (rw known refl)

  -- An update that is answered changes the run that it names.
  pub update_run-served :
      (run_id : ℤ) (u : RunUpdate) (w : State X) {r : Run X.json.Json}
      → find_run run_id w.tables.runs ≡ some r
      → ((update_run X run_id u w).0 ≡ ok tt)
        × (find_run run_id (update_run X run_id u w).1.tables.runs ≡ some (apply_update X u r))
  unfolding update_run
  update_run-served run_id u w found =
      let e = query-served X all_served (λ now t. inr (tt {0}, changed X run_id u t)) w tt _ refl in
      (
        ap (λ (p : Result X.SqlxError (Unit {0}) × State X). p.0) e,
        ap (λ (p : Result X.SqlxError (Unit {0}) × State X). find_run run_id p.1.tables.runs) e
            ∙ update_run-ok X run_id u w _ found e,
      )
