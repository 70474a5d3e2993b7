-- ===== src/Serving/Ownership.antt =====
-- Which task owns a run in the database.
pub mod Steps
pub mod Reachable
use rbackup.Base.{
  ℕ, ◌+◌, ◌≤◌, ◌≡◌, List, [], ◌∷◌, ◌++◌, none, some, Option, arith, ◌==◌, int_eq, if◌then◌else◌,
  All,
}
use rbackup.Base.Int.{ℤ}
use rbackup.Models.{Run, is_running}
use rbackup.Database.Runs.{find_run, IsOld}
use rbackup.Serving.{Task, fetching, checking, marking, creating, completing, starting, recording}

module _ {Json E : Type 0} where
  -- Whether a task is to update the run with this id, as a number.
  abbrev pub owns : ℤ → Task Json E → ℕ
  owns id (fetching _) = 0
  owns id (checking _ _) = 0
  owns id (marking _ _) = 0
  owns id (creating _ _) = 0
  owns id (completing _ _) = 0
  owns id (starting _ _ run_id) = if run_id == id then 1 else 0
  owns id (recording _ _ run_id _) = if run_id == id then 1 else 0

  -- The number of tasks that are to update the run.
  abbrev pub owners : ℤ → List (Task Json E) → ℕ
  owners id [] = 0
  owners id (task ∷ tasks) = owns id task + owners id tasks

  pub owners-append :
      (id : ℤ) (xs ys : List (Task Json E)) → owners id (xs ++ ys) ≡ owners id xs + owners id ys
  owners-append id [] ys = omega arith
  owners-append id (task ∷ xs) ys = omega (arith, owners-append id xs ys)

  pub owners-middle :
      (id : ℤ) (xs ys zs : List (Task Json E))
      → owners id (xs ++ (ys ++ zs)) ≡ owners id ys + (owners id xs + owners id zs)
  owners-middle id xs ys zs = omega (arith, owners-append id xs (ys ++ zs), owners-append id ys zs)

module _ {Json : Type 0} where
  abbrev pub unfinished_row : Option (Run Json) → ℕ
  unfinished_row none = 0
  unfinished_row (some run) = if is_running run then 1 else 0

  -- Whether the run is in the table and "running", as a number.
  abbrev pub unfinished : ℤ → List (Run Json) → ℕ
  unfinished id runs = unfinished_row (find_run id runs)

  -- The sequence of the ids is ahead of the table, and each run has at most as many owners as `count`
  -- says: one if it is in the table and "running", and none else.
  abbrev pub Covers : (ℤ → ℕ) → ℕ → List (Run Json) → Type 0
  Covers count next_run_id runs =
      All (IsOld next_run_id) runs × ((id : ℤ) → count id ≤ unfinished id runs)

  pub Covers-less :
      (f g : ℤ → ℕ) (n : ℕ) (runs : List (Run Json))
      → ((id : ℤ) → g id ≤ f id)
      → Covers f n runs
      → Covers g n runs
  Covers-less f g n runs less (old, h) = (old, λ id. omega (arith, less id, h id))

  pub unfinished_bound : (id : ℤ) (runs : List (Run Json)) → unfinished id runs ≤ 1
  unfinished_bound id runs = ground arith
