-- ===== src/Serving/Ownership/Reachable.antt =====
-- In every state that the program reaches, a run has at most one task that is to update it.
use rbackup.Base.{ℕ, ◌+◌, ◌≡◌, sym, ap, subst, [], ◌∷◌, arith, int_eq}
use rbackup.Base.Int.{ℤ}
use rbackup.Config.Remote.{RemoteConfig}
use rbackup.External.{Externals}
use rbackup.Database.World.{Tables}
use rbackup.Database.Runs.{IsFresh}
use rbackup.Serving.{
  fetching, advance, left_of, ServingOf, host_of, app_of, Move, serve, receive, work, Moves,
  none_yet, then_move, after_call,
}
use rbackup.Serving.Frame.{SameForTasks, perform-SameForTasks}
use rbackup.Serving.Ownership.{owners, owners-append, owners-middle, Covers, Covers-less}
use rbackup.Serving.Ownership.Steps.{CoversIn, advance-Covers}

module _ (X : Externals) (config : RemoteConfig X.json.Json) where
  -- The sequence of the ids is ahead of the table of runs, and each run has at most one task that is
  -- to update it, and none if it is not in the table or not "running".
  abbrev pub IsCovered : ServingOf X → Type 0
  IsCovered s = CoversIn X (λ id. owners id s.tasks) s.world.tables

  Covers-same :
      (count : ℤ → ℕ) (a b : Tables X.json.Json)
      → SameForTasks X a b
      → CoversIn X count a
      → CoversIn X count b
  Covers-same count a b (runs, next, _, _) h =
      subst (λ n. Covers count n b.runs) (sym next)
        (subst (Covers count a.next_run_id) (sym runs) h)

  pub Move-IsCovered : {s t : ServingOf X} → Move X config s t → IsCovered s → IsCovered t
  Move-IsCovered (serve {s} call) h =
      Covers-same (λ id. owners id s.tasks) s.world.tables (after_call X call s).world.tables
        (perform-SameForTasks X call (app_of X s)) h
  Move-IsCovered (receive {s} execution waiting oldest) h =
      Covers-less (λ id. owners id s.tasks) _ _ _
        (λ id. omega (arith, owners-append id s.tasks (fetching execution ∷ []))) h
  Move-IsCovered (work {s} before task later here) h =
      let rest : ℤ → ℕ = λ id. owners id before + owners id later in
      Covers-less (λ id. owners id (left_of (advance X config task (host_of X s)).0) + rest id) _ _
        _
        (λ id.
          omega (
            arith,
            owners-middle id before (left_of (advance X config task (host_of X s)).0) later,
          ))
        (advance-Covers X config task (host_of X s) rest (
          Covers-less (λ id. owners id s.tasks) _ _ _
            (λ id. omega (arith, ap (owners id) here, owners-middle id before (task ∷ []) later))
            h))

  -- From a start at which the sequence of the ids is ahead of the table of runs and no task runs, and
  -- through any calls of the scheduler, messages and steps of tasks in any order, whatever becomes of
  -- the queries: the sequence stays ahead, and each run has at most one task that is to update it, and
  -- none if the run is not in the table or not "running".
  pub Moves-IsCovered :
      {start s : ServingOf X}
      → IsFresh start.world.tables
      → start.tasks ≡ []
      → Moves X config start s
      → IsCovered s
  Moves-IsCovered {start} fresh idle none_yet = (fresh, λ id. omega (arith, ap (owners id) idle))
  Moves-IsCovered fresh idle (then_move before last) =
      Move-IsCovered last (Moves-IsCovered fresh idle before)
