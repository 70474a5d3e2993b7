-- ===== src/Serving/Draining/Settled.antt =====
-- What the tasks leave when all of them have ended.
use rbackup.Base.{
  ℕ, ◌+◌, ◌*◌, ◌≤◌, ◌≡◌, ap, ◌∙◌, List, [], ◌∷◌, some, arith, true, length, int_eq, if◌then◌else◌,
}
use rbackup.Base.Int.{ℤ}
use rbackup.Error.{ok}
use rbackup.Models.{Run, is_running}
use rbackup.Config.Remote.{RemoteConfig}
use rbackup.Backup.Restic.{ResticCommand, new}
use rbackup.External.{Externals}
use rbackup.Database.Queries.{IsServed}
use rbackup.Database.Runs.{find_run, IsFresh}
use rbackup.Serving.{
  fetching, advance, left_of, ServingOf, host_of, app_of, Move, serve, receive, work, Moves,
  none_yet, then_move,
}
use rbackup.Serving.Frame.{perform-SameForTasks}
use rbackup.Serving.Ownership.{owners, owners-append, owners-middle, unfinished, unfinished_row}
use rbackup.Serving.Ownership.Reachable.{IsCovered, Moves-IsCovered}
use rbackup.Serving.Lifecycle.{unfinished-running}
use rbackup.Serving.Draining.{Works, Works-Moves, drain}
use rbackup.Serving.Draining.Recorded.{Counted, advance-Counted}

module _ {Json : Type 0} where
  running-unfinished :
      (id : ℤ) (runs : List (Run Json)) (run : Run Json)
      → find_run id runs ≡ some run
      → is_running run ≡ true
      → unfinished id runs ≡ 1
  running-unfinished id runs run found running =
      ap unfinished_row found ∙ ap (λ b. if b then 1 else 0) running

module _ (X : Externals) (all_served : IsServed X) (config : RemoteConfig X.json.Json)
    (cmd : ResticCommand)
    (made : new {SqlxError = X.SqlxError} X.windows X.which config ≡ ok cmd) where
  -- A run that is "running" has a task that is to update it, or was so before.
  abbrev AllCounted : (ℤ → ℕ) → ServingOf X → Type 0
  AllCounted before s = Counted (λ id. owners id s.tasks + before id) s.world.tables

  Move-AllCounted :
      (before : ℤ → ℕ) {s t : ServingOf X}
      → Move X config s t
      → IsCovered X config s
      → AllCounted before s
      → AllCounted before t
  Move-AllCounted before (serve {s} call) covered h =
      λ id. omega (arith, h id, ap (unfinished id) (perform-SameForTasks X call (app_of X s)).0)
  Move-AllCounted before (receive {s} execution waiting oldest) covered h =
      λ id. omega (arith, h id, owners-append id s.tasks (fetching execution ∷ []))
  Move-AllCounted before (work {s} xs task zs here) (fresh, covers) h = λ id.
      let left = left_of (advance X config task (host_of X s)).0 in
      let rest : ℤ → ℕ = λ i. owners i xs + (owners i zs + before i) in
      omega (
        arith,
        owners-middle id xs left zs,
        advance-Counted X all_served config cmd made task (host_of X s) rest fresh
            (λ i. omega (arith, covers i, ap (owners i) here, owners-middle i xs (task ∷ []) zs))
            (λ i. omega (arith, h i, ap (owners i) here, owners-middle i xs (task ∷ []) zs)) id,
      )

  Moves-AllCounted :
      {start s : ServingOf X}
      → IsFresh start.world.tables
      → start.tasks ≡ []
      → Moves X config start s
      → AllCounted (λ id. unfinished id start.world.tables.runs) s
  Moves-AllCounted {start} fresh idle none_yet = λ id. omega arith
  Moves-AllCounted {start} fresh idle (then_move before last) =
      Move-AllCounted (λ id. unfinished id start.world.tables.runs) last
        (Moves-IsCovered X config fresh idle before) (Moves-AllCounted fresh idle before)

  -- Where all queries are answered, the configuration yields a `restic` command, and the program has
  -- gone on from a start at which the sequence of the ids is ahead of the table of runs and no task
  -- runs, at most seven steps for each of its tasks lead to a state without tasks, and every run that
  -- is "running" there was "running" at the start.
  pub drain-finished :
      {start s : ServingOf X}
      → IsFresh start.world.tables
      → start.tasks ≡ []
      → Moves X config start s
      → (n : ℕ) × (t : ServingOf X) × Works X config s n t
        × (n ≤ 7 * length s.tasks)
        × (t.tasks ≡ [])
        × ((id : ℤ) (run : Run X.json.Json)
            → find_run id t.world.tables.runs ≡ some run
            → is_running run ≡ true
            → (old : Run X.json.Json) × (find_run id start.world.tables.runs ≡ some old)
              × (is_running old ≡ true))
  drain-finished {start} {s} fresh idle before =
      let (bounds, (n, t, works, no_tasks)) = drain X config s in
      let counted = Moves-AllCounted fresh idle (Works-Moves X config before works) in
      (
        n,
        t,
        works,
        bounds n t works,
        no_tasks,
        λ id run found running. unfinished-running id start.world.tables.runs (
            omega (
              arith,
              counted id,
              ap (owners id) no_tasks,
              running-unfinished id t.world.tables.runs run found running,
            )),
      )
