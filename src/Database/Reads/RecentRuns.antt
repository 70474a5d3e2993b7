-- ===== src/Database/Reads/RecentRuns.antt =====
-- `get_recent_runs`: the order of its answer, and what it leaves out.
use mathlib.Core.List.{Permᴰ}
use mathlib.Core.List.Permᴰ
use rbackup.Base.{
  ℕ, ◌≡◌, refl, ap, ◌∙◌, String, List, [], ◌∷◌, All, arith, filter, take, inr, Bool-cases, inl,
  ◌==◌, string_eq,
}
use rbackup.Base.Int.{ℤ, pos, leb_ℤ, ◌≤ℤ◌, int_laws}
use rbackup.Error.{ok}
use rbackup.Models.{Run}
use rbackup.External.{Externals}
use rbackup.Database.World.{State}
use rbackup.Database.Reads.{insert_by_start, sort_runs, recent_runs, get_recent_runs}
use rbackup.Database.Queries.{query-ok}

module _ {Json : Type 0} where
  -- The newest run first.
  abbrev pub IsDescending : List (Run Json) → Type 0
  IsDescending [] = Unit
  IsDescending (r ∷ rest) =
      All (λ (s : Run Json). s.start_time ≤ℤ r.start_time) rest × IsDescending rest

  insert_by_start-All :
      (P : Run Json → Type 0) (r : Run Json) (runs : List (Run Json))
      → P r
      → All P runs
      → All P (insert_by_start r runs)
  unfolding insert_by_start
  insert_by_start-All P r [] h all = (h, tt)
  insert_by_start-All P r (s ∷ runs) h (hs, all) =
      elim (Bool-cases (leb_ℤ s.start_time r.start_time)) [
        | inl before ↦ rw (before, insert_by_start) (h, (hs, all))
        | inr later ↦ rw (later, insert_by_start) (hs, insert_by_start-All P r runs h all)
      ]

  All-trans :
      (a b : ℤ) (runs : List (Run Json))
      → a ≤ℤ b
      → All (λ (s : Run Json). s.start_time ≤ℤ a) runs
      → All (λ (s : Run Json). s.start_time ≤ℤ b) runs
  All-trans a b [] le h = tt
  All-trans a b (s ∷ runs) le (h, all) = (omega int_laws, All-trans a b runs le all)

  insert_by_start-IsDescending :
      (r : Run Json) (runs : List (Run Json))
      → IsDescending runs
      → IsDescending (insert_by_start r runs)
  unfolding insert_by_start
  insert_by_start-IsDescending r [] h = (tt, tt)
  insert_by_start-IsDescending r (s ∷ runs) (all, h) =
      elim (Bool-cases (leb_ℤ s.start_time r.start_time)) [
        | inl before ↦
            rw (before, insert_by_start)
              (
                (ground arith, All-trans s.start_time r.start_time runs (ground arith) all),
                (all, h),
              )
        | inr later ↦
            rw (later, insert_by_start)
              (
                insert_by_start-All (λ (t : Run Json). t.start_time ≤ℤ s.start_time) r runs
                    (ground arith) all,
                insert_by_start-IsDescending r runs h,
              )
      ]

  sort_runs-IsDescending : (runs : List (Run Json)) → IsDescending (sort_runs runs)
  unfolding sort_runs
  sort_runs-IsDescending [] = tt
  sort_runs-IsDescending (r ∷ runs) =
      insert_by_start-IsDescending r (sort_runs runs) (sort_runs-IsDescending runs)

  insert_by_start-Perm :
      (r : Run Json) (runs : List (Run Json)) → Permᴰ (insert_by_start r runs) (r ∷ runs)
  unfolding insert_by_start
  insert_by_start-Perm r [] = Permᴰ.refl (r ∷ [])
  insert_by_start-Perm r (s ∷ runs) = elim (Bool-cases (leb_ℤ s.start_time r.start_time)) [
    | inl before ↦ rw (before, insert_by_start) (Permᴰ.refl (r ∷ s ∷ runs))
    | inr later ↦
        rw (later, insert_by_start)
          (Permᴰ.trans (Permᴰ.cons refl (insert_by_start-Perm r runs)) (Permᴰ.swap refl refl))
  ]

  sort_runs-Perm : (runs : List (Run Json)) → Permᴰ (sort_runs runs) runs
  unfolding sort_runs
  sort_runs-Perm [] = Permᴰ.nil
  sort_runs-Perm (r ∷ runs) =
      Permᴰ.trans (insert_by_start-Perm r (sort_runs runs)) (Permᴰ.cons refl (sort_runs-Perm runs))

module _ (X : Externals) where
  -- An answer of `get_recent_runs` is the beginning, as long as asked for at most, of a list of all
  -- runs of the device, the newest first, and the tables are as before.
  pub get_recent_runs-ok :
      (device_id : String) (limit : ℕ) (w w' : State X) (runs : List (Run X.json.Json))
      → get_recent_runs X device_id (pos limit) w ≡ (ok runs, w')
      → (w'.tables ≡ w.tables)
        × ((sorted : List (Run X.json.Json)) × IsDescending sorted
            × Permᴰ sorted
                (filter (λ (r : Run X.json.Json). r.device_id == device_id) w.tables.runs)
            × (runs ≡ take limit sorted))
  unfolding get_recent_runs recent_runs
  get_recent_runs-ok device_id limit w w' runs h =
      let of_device = filter (λ (r : Run X.json.Json). r.device_id == device_id) w.tables.runs in
      let (t, e, same) = query-ok X _ w runs w' h in
      (
        ap (λ (v : State X). v.tables) same ∙ cc e,
        (sort_runs of_device, sort_runs-IsDescending of_device, sort_runs-Perm of_device, cc e),
      )
