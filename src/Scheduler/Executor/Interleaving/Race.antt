-- ===== src/Scheduler/Executor/Interleaving/Race.antt =====
-- Tasks that check before any of them is marked.
use rbackup.Base.{
  ℕ, zero, suc, ◌+◌, ◌≤◌, ◌≡◌, refl, sym, ap, subst, ◌∙◌, String, true, List, [], ◌∷◌, ◌++◌, lt→ltb,
  arith, string_eq,
}
use rbackup.Base.HashMap
use rbackup.Models.{Uuid}
use rbackup.Scheduler.Executor.{JobExecutor, can_execute}
use rbackup.Scheduler.Executor.Interleaving.{
  admitted, backing_up, Job, at, System, system, spawn, admit, mark, Run, idle, step, start,
  backups,
}
use rbackup.Scheduler.Executor.Interleaving.Checks.{can_execute-Run}

abbrev replicate : ℕ → Job → List Job
replicate zero t = []
replicate (suc n) t = t ∷ replicate n t

replicate-snoc :
    (n : ℕ) (t : Job) (later : List Job)
    → replicate n t ++ (t ∷ later) ≡ t ∷ (replicate n t ++ later)
replicate-snoc zero t later = refl
replicate-snoc (suc n) t later = ap (λ l. t ∷ l) (replicate-snoc n t later)

module _ (max : ℕ) (limit : 1 ≤ max) (d : String) (j : Uuid) where
  abbrev e : JobExecutor
  e = (start max).executor

  free : can_execute e d ≡ true
  unfolding HashMap.get
  free = can_execute-Run max d idle ∙ lt→ltb 0 max limit

  -- All tasks pass the check.
  all_admitted : (n : ℕ) → Run (start max) (system e (replicate n (at admitted d j)))
  all_admitted zero = idle
  all_admitted (suc n) =
      step (step (all_admitted n) (spawn [] (replicate n (at admitted d j)) d j))
        (admit [] (replicate n (at admitted d j)) d j free)

  -- All tasks are marked, the last one first.
  all_marked :
      (n : ℕ) {e' : JobExecutor} (marked : List Job) (k : ℕ)
      → backups d marked ≡ k
      → Run (start max) (system e' (replicate n (at admitted d j) ++ marked))
      → (s : System) × Run (start max) s × (backups d s.tasks ≡ n + k)
  all_marked zero marked k h run = (_, run, omega (arith, h))
  all_marked (suc n) {e'} marked k h run =
      let run' =
        subst (λ l. Run (start max) (system e' l)) (sym (replicate-snoc n (at admitted d j) marked))
          run in
      let (s, reached, count) =
        all_marked n (at backing_up d j ∷ marked) (suc k) (ground (arith, h))
          (step run' (mark (replicate n (at admitted d j)) marked d j)) in
      (s, reached, omega (arith, count))

  replicate-nil : (n : ℕ) → replicate n (at admitted d j) ++ [] ≡ replicate n (at admitted d j)
  replicate-nil zero = refl
  replicate-nil (suc n) = ap (λ l. at admitted d j ∷ l) (replicate-nil n)

  -- For every limit from one on, and any number of backups, there is a run of the executor at whose
  -- end so many backups of one device are in progress.
  pub backups_above_limit : (n : ℕ) → (s : System) × Run (start max) s × (backups d s.tasks ≡ n)
  backups_above_limit n =
      let (s, reached, count) =
        all_marked n [] 0 refl
          (subst (λ l. Run (start max) (system e l)) (sym (replicate-nil n)) (all_admitted n)) in
      (s, reached, omega (arith, count))
