-- ===== src/Serving/Tests.antt =====
-- A message on its way through the executor, next to a check of the schedules.
use rbackup.Base.{
  ℕ, ◌+◌, ◌*◌, ◌≤◌, ◌≡◌, refl, String, true, false, none, some, List, [], ◌∷◌, ◌++◌, arith, length,
  option_eq, string_eq, nat_eq, int_eq,
}
use rbackup.Base.Int.{ℤ, pos}
use rbackup.Base.HashMap
use rbackup.Error.{ok}
use rbackup.Models.{Run, is_running}
use rbackup.Config.Remote.{repository_url, repository_password, repository_cache_dir, get_setting}
use rbackup.Backup.Restic.{find_restic_binary, new}
use rbackup.Database.World.{query, answer}
use rbackup.Database.Reads.{get_job_by_id}
use rbackup.Database.Writes.{has_references, run_insertion, create_run}
use rbackup.Database.Runs.{find_run, IsFresh}
use rbackup.Scheduler.Service.{JobExecution, check_schedules, check_each}
use rbackup.Scheduler.Service.Calls.{check, perform}
use rbackup.Scheduler.Executor.{can_execute, execute_job}
use rbackup.Scheduler.Executor.Interleaving
use rbackup.Serving.{
  fetching, checking, marking, creating, starting, TaskOf, fetched, created, advance, ServingOf,
  begin_serving, host_of, serve, receive, work, Move, Moves, none_yet, then_move, after_call,
  after_receive, after_work,
}
use rbackup.Serving.Alone.{advance_times, advance_times-execute_job}
use rbackup.Serving.Ownership.Reachable.{IsCovered, Moves-IsCovered}
use rbackup.Serving.Lifecycle.{lives, LifeStep}
use rbackup.Serving.Lifecycle.Refinement.{Moves-LifeStep}
use rbackup.Serving.Lifecycle.Finished.{find_run-finished}
use rbackup.Serving.Lifecycle.Old.{find_run-old}
use rbackup.Serving.Draining.{Works, drain}
use rbackup.Serving.Draining.Settled.{drain-finished}
use rbackup.Serving.Limits.{view, Moves-Run}
use rbackup.Serving.Received.{length-runs_bound}
use rbackup.Error.{ok}
use rbackup.Client.{test_backup, prepare, choose_mode, Mode}
use rbackup.Client
use rbackup.Client.Startup.{
  returned, run_program, run_configured, run_logged, run_connected, setup_logging, create_pool,
  run_migrations,
}
use rbackup.Config.Local.{from_file, validate}
use rbackup.Config.Remote.{max_concurrent_backups, settings_map}
use rbackup.Config.Loading.{load_config_from_db}
use rbackup.Database.World.{State}
use rbackup.Database.Reads.{
  join_schedules, ordered_settings, get_jobs_for_device, get_schedules_for_device,
  get_settings_for_device,
}
use rbackup.Database.Writes.{upsert_device}
use rbackup.Serving.Message.{WorksAlone, message-finished}
use rbackup.Serving.FromStart.{migrated, run_program-LifeStep}
use rbackup.Samples.{SampleJson}
use rbackup.Samples.Program.{
  command, surroundings, all_served, local, which_restic, job, old_run, tables, world, config,
}

abbrev execution : JobExecution
execution = record { job_id = 7; triggered_by = "schedule" }

-- The executor has nothing to do, and one message was sent.
abbrev begin : ServingOf all_served
begin =
    let new = begin_serving all_served local 1 world in
    record new { scheduler = record new.scheduler { sent = execution ∷ [] } }

abbrev spawned : ServingOf all_served
spawned = after_receive all_served execution begin

abbrev looked_up : ServingOf all_served
looked_up = after_work all_served config [] (fetching execution) [] spawned

abbrev passed : ServingOf all_served
passed = after_work all_served config [] (checking 7 job) [] looked_up

abbrev marked : ServingOf all_served
marked = after_work all_served config [] (marking 7 job) [] passed

abbrev has_run : ServingOf all_served
has_run = after_work all_served config [] (creating 7 job) [] marked

abbrev only : TaskOf all_served → List (TaskOf all_served)
only task = task ∷ []

is_checking : looked_up.tasks ≡ only (checking 7 job)
unfolding advance fetched get_job_by_id query answer nat_eq
is_checking = refl

is_marking : passed.tasks ≡ only (marking 7 job)
unfolding advance can_execute
is_marking = refl

is_creating : marked.tasks ≡ only (creating 7 job)
unfolding advance
is_creating = refl

is_starting : has_run.tasks ≡ only (starting 7 job (pos 2))
unfolding advance created create_run run_insertion has_references query answer nat_eq string_eq
    get_job_by_id
is_starting = refl

reached : Moves all_served config begin has_run
reached =
    then_move
      (then_move
        (then_move
          (then_move (then_move none_yet (receive execution [] refl))
            (work [] (fetching execution) [] refl))
          (work [] (checking 7 job) [] is_checking))
        (work [] (marking 7 job) [] is_marking))
      (work [] (creating 7 job) [] is_creating)

-- A check of the schedules comes in between.
abbrev checked : ServingOf all_served
checked = after_call all_served check has_run

reached_checked : Moves all_served config begin checked
reached_checked = then_move reached (serve check)

fresh : IsFresh tables
fresh = ((1, refl, omega arith), tt)

is_finished : is_running old_run ≡ false
unfolding is_running string_eq
is_finished = refl

was_old : find_run (pos 1) tables.runs ≡ some old_run
unfolding find_run int_eq native.Mathlib.Decide.ℕ_discrete
was_old = refl

is_old : find_run (pos 1) has_run.world.tables.runs ≡ some old_run
unfolding find_run advance create_run run_insertion has_references query answer nat_eq string_eq
    get_job_by_id int_eq
is_old = refl

advance_times-execute_job_example :
    advance_times all_served config 7 (some (fetching execution), host_of all_served begin)
    ≡ (none, (execute_job all_served config execution (host_of all_served begin)).1)
advance_times-execute_job_example =
    advance_times-execute_job all_served config execution (host_of all_served begin)

Moves-IsCovered_example : IsCovered all_served config checked
Moves-IsCovered_example = Moves-IsCovered all_served config fresh refl reached_checked

-- The task starts `restic` for its run.
Moves-LifeStep_example :
    LifeStep (lives has_run.world.tables.runs) (
      lives (after_work all_served config [] (starting 7 job (pos 2)) [] has_run).world.tables.runs)
Moves-LifeStep_example =
    Moves-LifeStep all_served config fresh refl reached
      (work [] (starting 7 job (pos 2)) [] is_starting)

find_run-finished_example :
    find_run
      (pos 1)
      (after_work all_served config [] (starting 7 job (pos 2)) [] has_run).world.tables.runs
    ≡ some old_run
find_run-finished_example =
    find_run-finished all_served config (pos 1) old_run is_finished fresh refl reached is_old
      (then_move none_yet (work [] (starting 7 job (pos 2)) [] is_starting))

find_run-old_example : find_run (pos 1) checked.world.tables.runs ≡ some old_run
find_run-old_example =
    find_run-old all_served config (pos 1) old_run fresh refl was_old reached_checked

drain_example :
    ((n : ℕ) (t : ServingOf all_served)
      → Works all_served config has_run n t
      → n ≤ 7 * length has_run.tasks)
    × ((n : ℕ) × (t : ServingOf all_served) × Works all_served config has_run n t × (t.tasks ≡ []))
drain_example = drain all_served config has_run

made : new {SqlxError = String} false which_restic config ≡ ok command
unfolding new find_restic_binary repository_url repository_password repository_cache_dir get_setting
    HashMap.get string_eq
made = refl

drain-finished_example :
    (n : ℕ) × (t : ServingOf all_served) × Works all_served config checked n t
    × (n ≤ 7 * length checked.tasks)
    × (t.tasks ≡ [])
    × ((id : ℤ) (run : Run SampleJson)
        → find_run id t.world.tables.runs ≡ some run
        → is_running run ≡ true
        → (old : Run SampleJson) × (find_run id begin.world.tables.runs ≡ some old)
          × (is_running old ≡ true))
drain-finished_example =
    drain-finished all_served (λ n. refl) config command made fresh refl reached_checked

Moves-Run_example : Interleaving.Run (view begin) (view checked)
Moves-Run_example = Moves-Run all_served config refl reached_checked

length-runs_bound_example :
    ((waiting : List JobExecution) × (checked.scheduler.sent ≡ checked.received ++ waiting))
    × (length checked.world.tables.runs ≤ length begin.world.tables.runs + length checked.received)
length-runs_bound_example = length-runs_bound all_served config refl refl reached_checked

-- The start of the program, up to the start of its tasks.
abbrev served : State all_served
served = (run_program all_served surroundings world).1

is_serving : run_program all_served surroundings world ≡ (returned (ok (Mode.serving 1)), served)
unfolding run_program run_configured run_logged run_connected setup_logging create_pool
    run_migrations from_file Client.run choose_mode prepare load_config_from_db get_jobs_for_device
    get_schedules_for_device get_settings_for_device query answer join_schedules ordered_settings
    settings_map HashMap.collect HashMap.insert HashMap.get get_setting repository_url upsert_device
    max_concurrent_backups validate string_eq option_eq nat_eq
is_serving = refl

migrated-IsFresh : IsFresh (migrated all_served surroundings world)
migrated-IsFresh = fresh

-- Then the scheduler loads its schedules and checks them.
run_program-LifeStep_example :
    let s = begin_serving all_served local 1 served in
    let t = after_call all_served check s in
    (served.tables.runs ≡ tables.runs)
    × LifeStep (lives s.world.tables.runs) (lives t.world.tables.runs)
    × ((id : ℤ) (run : Run SampleJson)
        → find_run id tables.runs ≡ some run
        → (find_run id s.world.tables.runs ≡ some run)
          × (find_run id t.world.tables.runs ≡ some run))
run_program-LifeStep_example =
    run_program-LifeStep all_served surroundings local config 1 world served migrated-IsFresh
      is_serving none_yet (serve check)

-- A check of the schedules, before the message is received.
abbrev once_checked : ServingOf all_served
once_checked = after_call all_served check begin

abbrev found_job : State all_served
found_job = record world { queries = 1; readings = 1 }

look_up : get_job_by_id all_served 7 once_checked.world ≡ (ok (some job), found_job)
unfolding get_job_by_id query answer nat_eq check_schedules check_each perform HashMap.values
look_up = refl

has_room : can_execute once_checked.executor "laptop" ≡ true
unfolding can_execute perform
has_room = refl

is_waiting : once_checked.scheduler.sent ≡ once_checked.received ++ (execution ∷ [])
unfolding perform check_schedules check_each HashMap.values
is_waiting = refl

known : has_references all_served 7 "laptop" tables ≡ true
unfolding has_references string_eq nat_eq
known = refl

message-finished_example :
    Move all_served config once_checked (after_receive all_served execution once_checked)
    × ((n : ℕ) × (t : ServingOf all_served) × WorksAlone all_served config []
          (after_receive all_served execution once_checked)
          n
          t
        × (n ≤ 7)
        × (host_of all_served t
            ≡ (execute_job all_served config execution (host_of all_served once_checked)).1)
        × (t.tasks ≡ [])
        × (t.received ≡ execution ∷ [])
        × ((run : Run SampleJson) × (find_run (pos 2) t.world.tables.runs ≡ some run)
            × (is_running run ≡ false)
            × (run.job_id ≡ 7)))
message-finished_example =
    message-finished all_served config (λ n. refl) command execution [] job found_job made fresh
      refl (then_move none_yet (serve check)) is_waiting look_up has_room known
