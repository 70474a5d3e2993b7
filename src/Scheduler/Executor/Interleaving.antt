-- ===== src/Scheduler/Executor/Interleaving.antt =====
-- src/scheduler/executor.rs: the tasks that `start` spawns, and how their steps interleave.
-- Each lock of `running_jobs` is one step; what a task does between its locks changes nothing that
-- another task's locks see.
pub mod Checks
pub mod Race
pub mod Serial
use rbackup.Base.{
  ℕ, ◌+◌, ◌≡◌, String, true, false, List, [], ◌∷◌, ◌++◌, arith, ◌==◌, string_eq, if◌then◌else◌,
}
use rbackup.Models.{Uuid}
use rbackup.Scheduler.Executor.{
  JobExecutor, new_executor, can_execute, mark_running, mark_completed,
}

-- Where a task of `execute_job` stands: before `can_execute`, between it and `mark_running`, or
-- between that and `mark_completed`.
pub data Phase : Type 0 where
  checking admitted backing_up : Phase

pub record Job : Type 0 where
  pub phase : Phase
  pub device_id : String
  pub job_id : Uuid

abbrev pub at : Phase → String → Uuid → Job
at phase device_id job_id = record { phase = phase; device_id = device_id; job_id = job_id }

-- The executor with the tasks that have not ended.
pub record System : Type 0 where
  pub executor : JobExecutor
  pub tasks : List Job

abbrev pub system : JobExecutor → List Job → System
system executor tasks = record { executor = executor; tasks = tasks }

-- A task is spawned and finds its job, passes or fails the check, is marked, or ends.
pub data Step : System → System → Type 0 where
  spawn :
      {e : JobExecutor} (before : List Job) (later : List Job) (d : String) (j : Uuid)
      → Step (system e (before ++ later)) (system e (before ++ (at checking d j ∷ later)))
  admit :
      {e : JobExecutor} (before : List Job) (later : List Job) (d : String) (j : Uuid)
      → can_execute e d ≡ true
      → Step
          (system e (before ++ (at checking d j ∷ later)))
          (system e (before ++ (at admitted d j ∷ later)))
  skip :
      {e : JobExecutor} (before : List Job) (later : List Job) (d : String) (j : Uuid)
      → can_execute e d ≡ false
      → Step (system e (before ++ (at checking d j ∷ later))) (system e (before ++ later))
  mark :
      {e : JobExecutor} (before : List Job) (later : List Job) (d : String) (j : Uuid)
      → Step
          (system e (before ++ (at admitted d j ∷ later)))
          (system (mark_running d j e) (before ++ (at backing_up d j ∷ later)))
  complete :
      {e : JobExecutor} (before : List Job) (later : List Job) (d : String) (j : Uuid)
      → Step
          (system e (before ++ (at backing_up d j ∷ later)))
          (system (mark_completed d e) (before ++ later))

-- A run of the executor from a start, the last step last.
pub data Run (start : System) : System → Type 0 where
  idle : Run start start
  step : {s t : System} → Run start s → Step s t → Run start t

-- A new executor, with no task yet.
abbrev pub start : ℕ → System
start max = system (new_executor max) []

abbrev weight : String → Phase → String → ℕ
weight d backing_up d' = if d' == d then 1 else 0
weight d checking d' = 0
weight d admitted d' = 0

-- The number of backups of a device that are in progress.
abbrev pub backups : String → List Job → ℕ
backups d [] = 0
backups d (t ∷ tasks) = weight d t.phase t.device_id + backups d tasks

pub backups-append :
    (d : String) (xs ys : List Job) → backups d (xs ++ ys) ≡ backups d xs + backups d ys
backups-append d [] ys = omega arith
backups-append d (t ∷ xs) ys = omega (arith, backups-append d xs ys)
