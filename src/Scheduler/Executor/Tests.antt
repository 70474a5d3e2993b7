-- ===== src/Scheduler/Executor/Tests.antt =====
-- Concrete runs of the executor, and the theorems at them.
use rbackup.Base.{
  ◌≤◌, ◌≡◌, refl, ◌⊎◌, true, false, some, [], ◌∷◌, arith, is_some, ltb, string_eq, nat_eq,
  if◌then◌else◌,
}
use rbackup.Base.HashMap
use rbackup.Error.{ok}
use rbackup.Database.World.{State, query, answer}
use rbackup.Database.Reads.{get_job_by_id}
use rbackup.Scheduler.Service.{JobExecution}
use rbackup.Scheduler.Executor.{can_execute, mark_running, Host, execute_job}
use rbackup.Scheduler.Executor.Sequential.{IsExecuted, execute_job-cases}
use rbackup.Scheduler.Executor.Interleaving.{backing_up, at, System, system, Run, start, backups}
use rbackup.Scheduler.Executor.Interleaving.Checks.{can_execute-Run}
use rbackup.Scheduler.Executor.Interleaving.Race.{backups_above_limit}
use rbackup.Scheduler.Executor.Interleaving.Serial.{SerialRun, SerialRun-Run, backups-SerialRun}
use rbackup.Samples.{SampleJson}
use rbackup.Samples.Program.{all_served, job, world, config}

abbrev execution : JobExecution
execution = record { job_id = 7; triggered_by = "schedule" }

-- An executor on which another device runs a job.
abbrev host : Host SampleJson
host = record {
  world = world;
  executor = record { running_jobs = ("server", 9) ∷ []; max_concurrent_per_device = 1 };
}

abbrev looked_up : State all_served
looked_up = record world { queries = 1 }

look_up : get_job_by_id all_served 7 world ≡ (ok (some job), looked_up)
unfolding get_job_by_id query answer nat_eq
look_up = refl

execute_job-cases_example :
    ((can_execute host.executor "laptop" ≡ true)
      × IsExecuted all_served config job looked_up host
          (execute_job all_served config execution host))
    ⊎ ((can_execute host.executor "laptop" ≡ false)
        × (execute_job all_served config execution host
            ≡ (ok tt, record host { world = looked_up })))
execute_job-cases_example = execute_job-cases all_served config execution host job looked_up look_up

laptop_fits : can_execute host.executor "laptop" ≡ true
unfolding can_execute string_eq
laptop_fits = refl

server_does_not : can_execute host.executor "server" ≡ false
unfolding can_execute string_eq
server_does_not = refl

empty_fits : can_execute (start 1).executor "laptop" ≡ true
unfolding can_execute
empty_fits = refl

abbrev one_marked : System
one_marked = system (mark_running "laptop" 7 (start 1).executor) (at backing_up "laptop" 7 ∷ [])

-- A task is spawned, admitted and marked at once.
reached : SerialRun (start 1) one_marked
reached =
    SerialRun.admit_and_mark [] [] "laptop" 7 (SerialRun.spawn SerialRun.idle "laptop" 7) empty_fits

can_execute-Run_example :
    can_execute one_marked.executor "laptop"
    ≡ ltb (if is_some (HashMap.get "laptop" one_marked.executor.running_jobs) then 1 else 0) 1
can_execute-Run_example = can_execute-Run 1 "laptop" (SerialRun-Run reached)

backups_above_limit_example : (s : System) × Run (start 1) s × (backups "laptop" s.tasks ≡ 3)
backups_above_limit_example = backups_above_limit 1 (omega arith) "laptop" 7 3

backups-SerialRun_example :
    (backups "laptop" one_marked.tasks ≤ 1)
    × (backups "laptop" one_marked.tasks
        ≡ (if is_some (HashMap.get "laptop" one_marked.executor.running_jobs) then 1 else 0))
backups-SerialRun_example = backups-SerialRun "laptop" reached
