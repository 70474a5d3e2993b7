-- ===== src/Serving/Lifecycle.antt =====
-- The life of a run as the rest of the program promises it, as a step relation.
pub mod Refinement
pub mod Finished
pub mod Old
use rbackup.Base.{◌≤◌, ◌≡◌, ◌≢◌, refl, List, none, some, Option, arith, true, if◌then◌else◌}
use rbackup.Base.Int.{ℤ}
use rbackup.Models.{Run, is_running}
use rbackup.Database.Runs.{find_run}
use rbackup.Serving.Ownership.{unfinished}

-- Where the run of an id stands.
pub data Life : Type 0 where
  absent in_progress finished : Life

-- What the program may do to the runs in one step: nothing, begin a run that is not there, or end one
-- that is in progress.
pub data LifeStep (f g : ℤ → Life) : Type 0 where
  unchanged : ((id : ℤ) → g id ≡ f id) → LifeStep f g
  begun :
      (id : ℤ) → f id ≡ absent → g id ≡ in_progress → ((j : ℤ) → j ≢ id → g j ≡ f j) → LifeStep f g
  ended :
      (id : ℤ)
      → f id ≡ in_progress
      → g id ≡ finished
      → ((j : ℤ) → j ≢ id → g j ≡ f j)
      → LifeStep f g

module _ {Json : Type 0} where
  abbrev pub row_life : Option (Run Json) → Life
  row_life none = absent
  row_life (some run) = if is_running run then in_progress else finished

  -- Where the runs of a table stand: "running" is in progress, any other status is finished.
  abbrev pub lives : List (Run Json) → ℤ → Life
  lives runs id = row_life (find_run id runs)

  -- A run that a task is to update is in the table and "running".
  pub unfinished-running :
      (id : ℤ) (runs : List (Run Json))
      → 1 ≤ unfinished id runs
      → (run : Run Json) × (find_run id runs ≡ some run) × (is_running run ≡ true)
  unfinished-running id runs h = go (find_run id runs) refl
    where
      go :
          (o : Option (Run Json))
          → find_run id runs ≡ o
          → (run : Run Json) × (find_run id runs ≡ some run) × (is_running run ≡ true)
      go none e = absurd (ground (arith, h, e))
      go (some run) e = (run, e, ground (arith, h, e))
