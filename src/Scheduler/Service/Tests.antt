-- ===== src/Scheduler/Service/Tests.antt =====
-- A check of a concrete scheduler that holds two schedules of one job, and the theorems at it.
use mathlib.Core.List.{Memᴰ}
use rbackup.Base.{
  ◌↔◌, is_some, ◌≡◌, refl, String, true, false, some, [], ◌∷◌, map, string_eq, nat_eq, int_eq,
  option_eq,
}
use rbackup.Base.Int.{ℤ, pos}
use rbackup.Base.HashMap
use rbackup.Error.{ok, err, AppError, query_failed}
use rbackup.Models.{Schedule}
use rbackup.Database.World.{query, answer}
use rbackup.Database.Writes.{update_schedule_last_run}
use rbackup.Scheduler.ScheduleCalc.{calculate_next_run, is_due}
use rbackup.Scheduler.Service.{
  load_without_next_run, load_schedule, load_schedules, reload_schedules, JobExecution, App, send,
  store_next_run, reschedule, execution_of, queue_job, check_each, check_schedules,
}
use rbackup.Scheduler.Service.Queueing.{due_schedules, check_schedules-sent}
use rbackup.Scheduler.Service.Rescheduling.{
  next_run, RowsMarked, queue_job-not_due, queue_job-err, queue_job-marks_siblings,
}
use rbackup.Scheduler.Service.Holding.{IsSound}
use rbackup.Scheduler.Service.Reloading.{reload_schedules-ids}
use rbackup.Scheduler.Service.Calls.{reload, check, trigger, perform_all, perform_all-IsSound}
use rbackup.Database.Reads.{get_schedules_for_device, join_schedules}
use rbackup.Database.Reads.JoinedSchedules.{IsActive}
use rbackup.Samples.{hourly-IsLater, SampleJson, clock, interval_schedule, cron_schedule}
use rbackup.Samples.Program.{all_served, all_refused, tables, world}

abbrev app : App SampleJson
app = record {
  world = world;
  scheduler = record {
    device_id = "laptop";
    schedules =
        (pos 1, interval_schedule)
        ∷ (pos 2, record cron_schedule { next_run_at = some (clock 13 0) })
        ∷ [];
    sent = [];
    receiver_open = true;
  };
}

abbrev message : JobExecution
message = record { job_id = 7; triggered_by = "schedule" }

check_schedules-sent_example :
    let (r, app') = check_schedules all_served app in
    (r ≡ ok tt)
    × (app'.scheduler.sent
        ≡ map (execution_of all_served) (
            due_schedules all_served
              (clock 12 0)
              (interval_schedule ∷ record cron_schedule { next_run_at = some (clock 13 0) } ∷ [])))
unfolding is_due HashMap.values
check_schedules-sent_example = check_schedules-sent all_served app refl

only_the_first_is_due : (check_schedules all_served app).1.scheduler.sent ≡ message ∷ []
unfolding check_schedules check_each queue_job send reschedule store_next_run calculate_next_run
    is_due update_schedule_last_run query answer string_eq nat_eq int_eq HashMap.values
only_the_first_is_due = refl

after : App SampleJson
after = (queue_job all_served interval_schedule app).1

queued : queue_job all_served interval_schedule app ≡ (ok tt, after)
unfolding after queue_job send reschedule store_next_run calculate_next_run update_schedule_last_run
    query answer string_eq nat_eq int_eq
queued = refl

found : HashMap.get (pos 1) app.scheduler.schedules ≡ some interval_schedule
unfolding HashMap.get int_eq native.Mathlib.Decide.ℕ_discrete
found = refl

queue_job-not_due_example :
    (after.scheduler.sent ≡ message ∷ [])
    × ((held' : Schedule SampleJson) × (HashMap.get (pos 1) after.scheduler.schedules ≡ some held')
        × (held'.last_run_at ≡ some (clock 12 0))
        × (is_due held' (clock 12 0) ≡ false))
queue_job-not_due_example =
    queue_job-not_due all_served interval_schedule app after interval_schedule hourly-IsLater refl
      found queued

abbrev failure : AppError String
failure = AppError.database (query_failed "connection lost")

not_updated :
    queue_job all_refused interval_schedule app
    ≡ (err failure, (queue_job all_refused interval_schedule app).1)
unfolding queue_job send reschedule store_next_run calculate_next_run update_schedule_last_run query
    answer string_eq nat_eq int_eq
not_updated = refl

queue_job-err_example :
    let app' = (queue_job all_refused interval_schedule app).1 in
    (app'.scheduler.sent ≡ message ∷ []) × (app'.scheduler.schedules ≡ app.scheduler.schedules)
queue_job-err_example =
    queue_job-err all_refused interval_schedule app (queue_job all_refused interval_schedule app).1
      {e = failure} refl not_updated

queue_job-marks_siblings_example :
    (t : ℤ) × (next_run all_served interval_schedule (clock 12 0) ≡ ok t)
    × RowsMarked all_served interval_schedule (clock 12 0) t after.world.tables.schedules
queue_job-marks_siblings_example =
    queue_job-marks_siblings all_served interval_schedule app after refl queued

-- A scheduler that has loaded nothing yet.
abbrev new_app : App SampleJson
new_app = record app { scheduler = record app.scheduler { schedules = [] } }

reloaded : App SampleJson
reloaded = (reload_schedules all_served new_app).1

is_reloaded : reload_schedules all_served new_app ≡ (ok tt, reloaded)
unfolding reloaded reload_schedules load_schedules load_schedule load_without_next_run
    get_schedules_for_device join_schedules calculate_next_run update_schedule_last_run query answer
    string_eq nat_eq int_eq
is_reloaded = refl

reload_schedules-ids_example :
    (is_some (HashMap.get (pos 2) reloaded.scheduler.schedules) ≡ true) ↔ (
      (s : Schedule SampleJson) × Memᴰ s tables.schedules
      × (s.id ≡ pos 2)
      × IsActive "laptop" tables.backup_jobs s)
reload_schedules-ids_example = reload_schedules-ids all_served (pos 2) new_app reloaded is_reloaded

perform_all-IsSound_example :
    IsSound all_served (perform_all all_served (reload ∷ check ∷ trigger 7 ∷ check ∷ []) new_app)
perform_all-IsSound_example =
    perform_all-IsSound all_served (reload ∷ check ∷ trigger 7 ∷ check ∷ []) new_app (tt, tt)
