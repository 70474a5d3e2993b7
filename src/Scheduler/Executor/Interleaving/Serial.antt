-- ===== src/Scheduler/Executor/Interleaving/Serial.antt =====
-- Runs in which no other task acts between a task's check and its mark.
use rbackup.Base.{
  [], ◌≤◌, ◌≡◌, refl, String, true, false, List, ◌∷◌, ◌++◌, is_some, arith, string_eq,
  if◌then◌else◌,
}
use rbackup.Base.HashMap
use rbackup.Base.HashMap.{NodupKeys}
use rbackup.Models.{Uuid}
use rbackup.Scheduler.Executor.{JobExecutor, can_execute, mark_running, mark_completed}
use rbackup.Scheduler.Executor.Limit.{can_execute-ltb, get-mark_running, get-mark_completed}
use rbackup.Scheduler.Executor.Interleaving.{
  checking, backing_up, Job, at, System, system, Step, admit, mark, Run, step, start, backups,
  backups-append,
}
use rbackup.Scheduler.Executor.Interleaving.Checks.{Run-IsSound}

-- A check that admits a job is followed by the mark of that job at once.
pub data SerialRun (begin : System) : System → Type 0 where
  idle : SerialRun begin begin
  spawn :
      {e : JobExecutor} {tasks : List Job}
      → SerialRun begin (system e tasks)
      → (d : String) (j : Uuid) → SerialRun begin (system e (at checking d j ∷ tasks))
  admit_and_mark :
      {e : JobExecutor} (before later : List Job) (d : String) (j : Uuid)
      → SerialRun begin (system e (before ++ (at checking d j ∷ later)))
      → can_execute e d ≡ true
      → SerialRun begin (system (mark_running d j e) (before ++ (at backing_up d j ∷ later)))
  skip :
      {e : JobExecutor} (before later : List Job) (d : String) (j : Uuid)
      → SerialRun begin (system e (before ++ (at checking d j ∷ later)))
      → can_execute e d ≡ false
      → SerialRun begin (system e (before ++ later))
  complete :
      {e : JobExecutor} (before later : List Job) (d : String) (j : Uuid)
      → SerialRun begin (system e (before ++ (at backing_up d j ∷ later)))
      → SerialRun begin (system (mark_completed d e) (before ++ later))

-- Each of them is a run.
pub SerialRun-Run : {begin s : System} → SerialRun begin s → Run begin s
SerialRun-Run idle = Run.idle
SerialRun-Run (spawn {tasks} run d j) = step (SerialRun-Run run) (Step.spawn [] tasks d j)
SerialRun-Run (admit_and_mark before later d j run fits) =
    step (step (SerialRun-Run run) (admit before later d j fits)) (mark before later d j)
SerialRun-Run (skip before later d j run full) =
    step (SerialRun-Run run) (Step.skip before later d j full)
SerialRun-Run (complete before later d j run) =
    step (SerialRun-Run run) (Step.complete before later d j)

-- Each device has as many backups in progress as entries in the map.
abbrev Agree : System → Type 0
Agree s =
    (d : String)
    → backups d s.tasks ≡ (if is_some (HashMap.get d s.executor.running_jobs) then 1 else 0)

Agree-mark :
    (e : JobExecutor) (before later : List Job) (d : String) (j : Uuid)
    → NodupKeys e.running_jobs × (e.max_concurrent_per_device ≡ 1)
    → can_execute e d ≡ true
    → Agree (system e (before ++ (at checking d j ∷ later)))
    → Agree (system (mark_running d j e) (before ++ (at backing_up d j ∷ later)))
Agree-mark e before later d j (u, one) fits agree d' = ground (
  arith,
  can_execute-ltb e d u,
  backups-append d' before (at checking d j ∷ later),
  backups-append d' before (at backing_up d j ∷ later),
  get-mark_running d' d j e,
  agree d',
  agree d,
)

Agree-skip :
    (e : JobExecutor) (before later : List Job) (d : String) (j : Uuid)
    → Agree (system e (before ++ (at checking d j ∷ later)))
    → Agree (system e (before ++ later))
Agree-skip e before later d j agree d' = ground (
  arith,
  backups-append d' before (at checking d j ∷ later),
  backups-append d' before later,
  agree d',
)

Agree-complete :
    (e : JobExecutor) (before later : List Job) (d : String) (j : Uuid)
    → Agree (system e (before ++ (at backing_up d j ∷ later)))
    → Agree (system (mark_completed d e) (before ++ later))
Agree-complete e before later d j agree d' = ground (
  arith,
  backups-append d' before (at backing_up d j ∷ later),
  backups-append d' before later,
  get-mark_completed d' d e,
  agree d',
)

SerialRun-Agree : {s : System} → SerialRun (start 1) s → Agree s
unfolding HashMap.get
SerialRun-Agree idle d = refl
SerialRun-Agree (spawn run d j) d' = omega (arith, SerialRun-Agree run d')
SerialRun-Agree (admit_and_mark {e} before later d j run fits) d' =
    Agree-mark e before later d j (Run-IsSound 1 (SerialRun-Run run)) fits (SerialRun-Agree run) d'
SerialRun-Agree (skip {e} before later d j run full) d' =
    Agree-skip e before later d j (SerialRun-Agree run) d'
SerialRun-Agree (complete {e} before later d j run) d' =
    Agree-complete e before later d j (SerialRun-Agree run) d'

-- With the limit of one, and where no other task acts between a task's check and its mark, no device
-- has more than one backup in progress, and it has one exactly if it stands in the map of running
-- jobs.
pub backups-SerialRun :
    (d : String) {s : System}
    → SerialRun (start 1) s
    → (backups d s.tasks ≤ 1)
      × (backups d s.tasks ≡ (if is_some (HashMap.get d s.executor.running_jobs) then 1 else 0))
backups-SerialRun d {s} run = let agree = SerialRun-Agree run d in (ground (arith, agree), agree)
