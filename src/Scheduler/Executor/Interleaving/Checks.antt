-- ===== src/Scheduler/Executor/Interleaving/Checks.antt =====
-- What a check of the limit answers, at any point of any interleaving.
use rbackup.Base.{ℕ, ◌≡◌, refl, ap, ◌∙◌, String, is_some, ltb, if◌then◌else◌, string_eq}
use rbackup.Base.HashMap
use rbackup.Base.HashMap.{NodupKeys}
use rbackup.Scheduler.Executor.{JobExecutor, can_execute, mark_running, mark_completed}
use rbackup.Scheduler.Executor.Limit.{
  can_execute-ltb, mark_running-NodupKeys, mark_completed-NodupKeys,
}
use rbackup.Scheduler.Executor.Interleaving.{
  System, Step, spawn, admit, skip, mark, complete, Run, idle, step, start,
}

-- The executor's invariant: no device is listed twice, and the limit is the one it was made with.
abbrev pub IsSound : ℕ → JobExecutor → Type 0
IsSound max e = NodupKeys e.running_jobs × (e.max_concurrent_per_device ≡ max)

pub Step-IsSound :
    (max : ℕ) {s t : System} → Step s t → IsSound max s.executor → IsSound max t.executor
unfolding mark_running mark_completed
Step-IsSound max (spawn before later d j) h = h
Step-IsSound max (admit before later d j fits) h = h
Step-IsSound max (skip before later d j full) h = h
Step-IsSound max (mark {e} before later d j) (u, same) = (mark_running-NodupKeys d j e u, same)
Step-IsSound max (complete {e} before later d j) (u, same) = (mark_completed-NodupKeys d e u, same)

pub Run-IsSound : (max : ℕ) {s : System} → Run (start max) s → IsSound max s.executor
Run-IsSound max idle = (tt, refl)
Run-IsSound max (step run last) = Step-IsSound max last (Run-IsSound max run)

-- However the tasks interleave, a check admits a job of a device with no running job if the limit is
-- one or more, and a job of any other device if it is two or more, whatever number of backups of the
-- device there is: a limit of two or more never stops a job.
pub can_execute-Run :
    (max : ℕ) (device_id : String) {s : System}
    → Run (start max) s
    → can_execute s.executor device_id
      ≡ ltb (if is_some (HashMap.get device_id s.executor.running_jobs) then 1 else 0) max
can_execute-Run max device_id {s} run =
    let (u, same) = Run-IsSound max run in
    can_execute-ltb s.executor device_id u
    ∙ ap (ltb (if is_some (HashMap.get device_id s.executor.running_jobs) then 1 else 0)) same
