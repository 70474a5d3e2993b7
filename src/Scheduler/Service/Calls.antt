-- ===== src/Scheduler/Service/Calls.antt =====
-- The invariant of the scheduler over any sequence of its calls.
use rbackup.Base.{some, List, [], ◌∷◌, Bool-cases, inl, inr, int_eq}
use rbackup.Base.Int.{ℤ}
use rbackup.Base.HashMap
use rbackup.Error.{Result, ok, err}
use rbackup.Models.{Uuid, DateTime, Schedule}
use rbackup.External.{Externals}
use rbackup.Database.World.{resume-keeps, utc_now}
use rbackup.Database.Writes.{update_schedule_last_run}
use rbackup.Scheduler.ScheduleCalc.{is_due}
use rbackup.Scheduler.Service.{
  JobExecution, App, SchedulerAction, lift, on_schedules, send, reload_schedules, mark_run,
  store_next_run, reschedule, execution_of, queue_job, check_each, check_schedules,
  trigger_manual_backup,
}
use rbackup.Scheduler.Service.Holding.{IsHeld, IsSound, modify-All, reload_schedules-IsSound}

-- The calls that the program makes of a scheduler, and the one that a web interface is to make.
pub data Call : Type 0 where
  reload check : Call
  trigger : Uuid → Call

module _ (X : Externals) where
  unfoldable pub perform : Call → SchedulerAction X (Unit {0})
  perform reload = reload_schedules X
  perform check = check_schedules X
  perform (trigger job_id) = trigger_manual_backup X job_id

  -- The calls one after the other, whatever each of them returns.
  unfoldable pub perform_all : List Call → App X.json.Json → App X.json.Json
  perform_all [] app = app
  perform_all (call ∷ calls) app = perform_all calls (perform call app).1

  send-IsSound :
      (execution : JobExecution) (app : App X.json.Json)
      → IsSound X app
      → IsSound X (send X execution app).1
  unfolding send
  send-IsSound execution app h = elim (Bool-cases app.scheduler.receiver_open) [
    | inl is_open ↦ rw is_open h
    | inr closed ↦ rw closed h
  ]

  marked-IsHeld :
      (now t : DateTime) (id : ℤ) (s : Schedule X.json.Json)
      → IsHeld (id, s)
      → IsHeld (id, mark_run X now t s)
  unfolding mark_run
  marked-IsHeld now t id s (same, ready) = (same, λ e. cc)

  store_next_run-IsSound :
      (s : Schedule X.json.Json) (now : DateTime) (r : Result X.SqlxError DateTime)
      (app : App X.json.Json)
      → IsSound X app
      → IsSound X (store_next_run X s now r app).1
  unfolding store_next_run
  store_next_run-IsSound s now (err e) app h = h
  store_next_run-IsSound s now (ok t) app h =
      resume-keeps (IsSound X) (lift X (update_schedule_last_run X s.job_id now (some t)) app)
        (λ _. on_schedules X (HashMap.modify s.id (mark_run X now t))) h
        λ _ app' (all, u). (
          modify-All s.id (mark_run X now t) app'.scheduler.schedules (marked-IsHeld now t) all,
          HashMap.modify-NodupKeys s.id (mark_run X now t) app'.scheduler.schedules u,
        )

  queue_job-IsSound :
      (s : Schedule X.json.Json) (app : App X.json.Json)
      → IsSound X app
      → IsSound X (queue_job X s app).1
  unfolding queue_job reschedule
  queue_job-IsSound s app h =
      resume-keeps (IsSound X) (send X (execution_of X s) app) (λ _. reschedule X s)
        (send-IsSound (execution_of X s) app h)
        λ _ app' h'.
          store_next_run-IsSound s (X.clock app'.world.readings) _ (lift X (utc_now X) app').1 h'

  check_each-IsSound :
      (now : DateTime) (schedules : List (Schedule X.json.Json)) (app : App X.json.Json)
      → IsSound X app
      → IsSound X (check_each X now schedules app).1
  unfolding check_each
  check_each-IsSound now [] app h = h
  check_each-IsSound now (s ∷ rest) app h = elim (Bool-cases s.enabled) [
    | inl enabled ↦ elim (Bool-cases (is_due s now)) [
      | inl due ↦
          simp (enabled, due)
            (check_each-IsSound now rest (queue_job X s app).1 (queue_job-IsSound s app h))
      | inr not_due ↦ simp (enabled, not_due) (check_each-IsSound now rest app h)
    ]
    | inr disabled ↦ simp disabled (check_each-IsSound now rest app h)
  ]

  pub perform-IsSound :
      (call : Call) (app : App X.json.Json) → IsSound X app → IsSound X (perform call app).1
  unfolding perform check_schedules trigger_manual_backup
  perform-IsSound reload app h = reload_schedules-IsSound X app h
  perform-IsSound check app h =
      check_each-IsSound (X.clock app.world.readings) (HashMap.values app.scheduler.schedules)
        (lift X (utc_now X) app).1 h
  perform-IsSound (trigger job_id) app h = send-IsSound _ app h

  -- Where it held before, it holds after any sequence of calls, whatever becomes of the queries and
  -- of the messages, that every schedule is held under its own id, that no id is held twice, and
  -- that every held schedule has a next run.
  pub perform_all-IsSound :
      (calls : List Call) (app : App X.json.Json)
      → IsSound X app
      → IsSound X (perform_all calls app)
  unfolding perform_all
  perform_all-IsSound [] app h = h
  perform_all-IsSound (call ∷ calls) app h =
      perform_all-IsSound calls (perform call app).1 (perform-IsSound call app h)
