-- ===== src/Serving/Draining.antt =====
-- The tasks of the executor end, in whatever order their steps are taken.
pub mod Recorded
pub mod Settled
use rbackup.Base.{
  ℕ, zero, suc, ◌+◌, ◌*◌, ◌≤◌, ◌<◌, ◌≡◌, refl, ap, List, [], ◌∷◌, ◌++◌, arith, none, some, Option,
  length,
}
use rbackup.Error.{Result, ok, err}
use rbackup.Models.{Uuid, BackupJob}
use rbackup.Config.Remote.{RemoteConfig}
use rbackup.Backup.Restic.{ResticCommand, new}
use rbackup.External.{Externals}
use rbackup.Database.Reads.{get_job_by_id}
use rbackup.Database.Writes.{create_run}
use rbackup.Serving.{
  Task, fetching, checking, marking, creating, completing, starting, recording, TaskOf, HostOf,
  fetched, created, launch, advance, left_of, ServingOf, host_of, Move, work, Moves, then_move,
  after_work,
}

module _ {Json E : Type 0} where
  -- The number of steps that a task can still take.
  abbrev pub steps_left : Task Json E → ℕ
  steps_left (fetching _) = 7
  steps_left (checking _ _) = 6
  steps_left (marking _ _) = 5
  steps_left (creating _ _) = 4
  steps_left (starting _ _ _) = 3
  steps_left (recording _ _ _ _) = 2
  steps_left (completing _ _) = 1

  abbrev pub all_steps_left : List (Task Json E) → ℕ
  all_steps_left [] = 0
  all_steps_left (task ∷ tasks) = steps_left task + all_steps_left tasks

  all_steps_left-middle :
      (xs ys zs : List (Task Json E))
      → all_steps_left (xs ++ (ys ++ zs))
        ≡ all_steps_left xs + (all_steps_left ys + all_steps_left zs)
  all_steps_left-middle [] [] zs = omega arith
  all_steps_left-middle [] (y ∷ ys) zs = omega (arith, all_steps_left-middle [] ys zs)
  all_steps_left-middle (x ∷ xs) ys zs = omega (arith, all_steps_left-middle xs ys zs)

  all_steps_left_bound : (tasks : List (Task Json E)) → all_steps_left tasks ≤ 7 * length tasks
  all_steps_left_bound [] = omega arith
  all_steps_left_bound (fetching _ ∷ tasks) = omega (arith, all_steps_left_bound tasks)
  all_steps_left_bound (checking _ _ ∷ tasks) = omega (arith, all_steps_left_bound tasks)
  all_steps_left_bound (marking _ _ ∷ tasks) = omega (arith, all_steps_left_bound tasks)
  all_steps_left_bound (creating _ _ ∷ tasks) = omega (arith, all_steps_left_bound tasks)
  all_steps_left_bound (starting _ _ _ ∷ tasks) = omega (arith, all_steps_left_bound tasks)
  all_steps_left_bound (recording _ _ _ _ ∷ tasks) = omega (arith, all_steps_left_bound tasks)
  all_steps_left_bound (completing _ _ ∷ tasks) = omega (arith, all_steps_left_bound tasks)

module _ (X : Externals) where
  fetched-steps_left :
      (job_id : Uuid) (r : Result X.SqlxError (Option (BackupJob X.json.Json)))
      → all_steps_left (left_of (fetched X job_id r)) < 7
  unfolding fetched
  fetched-steps_left job_id (err e) = omega arith
  fetched-steps_left job_id (ok none) = omega arith
  fetched-steps_left job_id (ok (some job)) = omega arith

  created-steps_left :
      (job_id : Uuid) (job : BackupJob X.json.Json) (r : Result X.SqlxError _)
      → steps_left (created X job_id job r) < 4
  unfolding created
  created-steps_left job_id job (ok run_id) = omega arith
  created-steps_left job_id job (err e) = omega arith

  launch-steps_left :
      (job_id : Uuid) (job : BackupJob X.json.Json) (run_id : _)
      (made : Result X.SqlxError ResticCommand) (host : HostOf X)
      → all_steps_left (left_of (launch X job_id job run_id made host).0) < 3
  unfolding launch
  launch-steps_left job_id job run_id (ok cmd) host = omega arith
  launch-steps_left job_id job run_id (err e) host = omega arith

  advance-steps_left :
      (config : RemoteConfig X.json.Json) (task : TaskOf X) (host : HostOf X)
      → all_steps_left (left_of (advance X config task host).0) < steps_left task
  unfolding advance
  advance-steps_left config (fetching m) host =
      fetched-steps_left m.job_id (get_job_by_id X m.job_id host.world).0
  advance-steps_left config (checking job_id job) host = ground arith
  advance-steps_left config (marking job_id job) host = omega arith
  advance-steps_left config (creating job_id job) host = omega (
    arith,
    created-steps_left job_id job (create_run X job.id job.device_id "manual" host.world).0,
  )
  advance-steps_left config (starting job_id job run_id) host =
      launch-steps_left job_id job run_id (new X.windows X.which config) host
  advance-steps_left config (recording job_id job run_id r) host = omega arith
  advance-steps_left config (completing job_id job) host = omega arith

  -- So many steps of tasks, in any order.
  pub data Works (config : RemoteConfig X.json.Json) (s : ServingOf X)
      : ℕ → ServingOf X → Type 0 where
    no_work : Works config s 0 s
    one_more :
        {n : ℕ} {t : ServingOf X}
        → Works config s n t
        → (before : List (TaskOf X)) (task : TaskOf X) (later : List (TaskOf X))
        → t.tasks ≡ before ++ (task ∷ later)
        → Works config s (suc n) (after_work X config before task later t)

  pub Works-Moves :
      (config : RemoteConfig X.json.Json) {start s t : ServingOf X} {n : ℕ}
      → Moves X config start s
      → Works config s n t
      → Moves X config start t
  Works-Moves config before no_work = before
  Works-Moves config before (one_more works xs task zs here) =
      then_move (Works-Moves config before works) (work xs task zs here)

  -- Each step of a task takes at least one off the steps that are left.
  Works-all_steps_left :
      (config : RemoteConfig X.json.Json) {s t : ServingOf X} {n : ℕ}
      → Works config s n t
      → n + all_steps_left t.tasks ≤ 7 * length s.tasks
  Works-all_steps_left config {s} no_work = omega (arith, all_steps_left_bound s.tasks)
  Works-all_steps_left config (one_more {t} works before task later here) =
      let left = left_of (advance X config task (host_of X t)).0 in
      omega (
        arith,
        Works-all_steps_left config works,
        ap all_steps_left here,
        all_steps_left-middle before (task ∷ []) later,
        all_steps_left-middle before left later,
        advance-steps_left config task (host_of X t),
      )

  drain_from :
      (config : RemoteConfig X.json.Json) (fuel : ℕ) (tasks : List (TaskOf X)) {s t : ServingOf X}
      {n : ℕ}
      → Works config s n t
      → t.tasks ≡ tasks
      → all_steps_left tasks ≤ fuel
      → (m : ℕ) × (u : ServingOf X) × Works config s m u × (u.tasks ≡ [])
  drain_from config fuel [] works e h = (_, _, works, e)
  drain_from config zero (task ∷ later) {t} works e h =
      absurd (omega (arith, h, advance-steps_left config task (host_of X t)))
  drain_from config (suc fuel) (task ∷ later) {t} works e h =
      let left = left_of (advance X config task (host_of X t)).0 in
      drain_from config fuel (left ++ later) (one_more works [] task later e) refl (
        omega (
          arith,
          h,
          advance-steps_left config task (host_of X t),
          all_steps_left-middle [] left later,
        ))

  -- The tasks end: from every state, whatever becomes of the queries, and in whatever order the steps of
  -- tasks are taken, there are at most seven for each task, and there are steps that lead to a state
  -- with no tasks.
  pub drain :
      (config : RemoteConfig X.json.Json) (s : ServingOf X)
      → ((n : ℕ) (t : ServingOf X) → Works config s n t → n ≤ 7 * length s.tasks)
        × ((n : ℕ) × (t : ServingOf X) × Works config s n t × (t.tasks ≡ []))
  drain config s = (
    λ n t works. omega (arith, Works-all_steps_left config works),
    drain_from config (all_steps_left s.tasks) s.tasks no_work refl (omega arith),
  )
