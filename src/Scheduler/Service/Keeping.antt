-- ===== src/Scheduler/Service/Keeping.antt =====
-- Properties that every call of the scheduler keeps.
use rbackup.Scheduler.Service.Queueing.{after_send}
use mathlib.Core.List.{append_assoc, append-nil}
use rbackup.Database.Queries.{query-readings}
use rbackup.Database.World.{query}
use rbackup.Base.{
  sym, ap, ◌∙◌, ◌++◌, arith, ◌≤◌, Bool, false, if◌then◌else◌, true, String, Option, ◌≡◌, refl, List,
  [], ◌∷◌, Bool-cases, Option-cases, inl, inr, some, unwrap_or, int_eq,
}
use rbackup.Base.HashMap
use rbackup.Base.HashMap.{HashMap}
use rbackup.Base.Int.{ℤ}
use rbackup.Error.{AppError, job_not_found, Result, ok, err}
use rbackup.Models.{DateTime, Uuid, Schedule}
use rbackup.External.{Externals}
use rbackup.Database.World.{resume, resume-keeps, utc_now}
use rbackup.Database.Reads.{get_schedules_for_device}
use rbackup.Database.Writes.{update_schedule_last_run}
use rbackup.Scheduler.ScheduleCalc.{calculate_next_run, is_due}
use rbackup.Scheduler.Service.{
  JobExecution, App, SchedulerAction, lift, on_schedules, send, load_without_next_run,
  load_schedule, load_schedules, reload_schedules, mark_run, store_next_run, reschedule,
  execution_of, queue_job, check_each, check_schedules, trigger_manual_backup,
}
use rbackup.Scheduler.Service.Calls.{Call, reload, check, trigger, perform}

module _ (X : Externals) (P : App X.json.Json → Type 0)
    (clock_keeps : (app : App X.json.Json) → P app → P (lift X (utc_now X) app).1)
    (read_keeps : (device_id : String) (app : App X.json.Json)
      → P app
      → P (lift X (get_schedules_for_device X device_id) app).1)
    (update_keeps : (job_id : Uuid) (last_run : DateTime) (next_run : Option DateTime)
        (app : App X.json.Json)
      → P app
      → P (lift X (update_schedule_last_run X job_id last_run next_run) app).1)
    (schedules_keeps : (f : HashMap ℤ (Schedule X.json.Json) → HashMap ℤ (Schedule X.json.Json))
        (app : App X.json.Json)
      → P app
      → P (on_schedules X f app).1)
    (send_keeps : (m : JobExecution) (app : App X.json.Json)
      → app.scheduler.receiver_open ≡ true
      → P app
      → P (after_send X app m)) where
  send-keeps : (m : JobExecution) (app : App X.json.Json) → P app → P (send X m app).1
  unfolding send
  send-keeps m app h = sent_if app.scheduler.receiver_open refl
    where
      sent_if :
          (b : Bool)
          → app.scheduler.receiver_open ≡ b
          → let outcome : Result X.SqlxError (Unit {0}) × App X.json.Json =
              if b
              then (ok tt, after_send X app m)
              else (err (AppError.scheduler (job_not_found X.channel_closed)), app) in
            P outcome.1
      sent_if true e = send_keeps m app e h
      sent_if false e = h

  with_next_run-keeps :
      (s : Schedule X.json.Json) (now : DateTime) (r : Result X.SqlxError DateTime)
      (app : App X.json.Json)
      → P app
      → P
          (resume
            (r, app)
            (λ next_run app'.
              let (stored, app'') =
                lift X
                  (update_schedule_last_run X s.job_id
                    (unwrap_or s.last_run_at now)
                    (some next_run))
                  app' in
              on_schedules X
                (HashMap.insert s.id (record s { next_run_at = some next_run }))
                app'')).1
  with_next_run-keeps s now (err e) app h = h
  with_next_run-keeps s now (ok t) app h =
      schedules_keeps (HashMap.insert s.id (record s { next_run_at = some t })) _
        (update_keeps s.job_id (unwrap_or s.last_run_at now) (some t) app h)

  load_schedule-keeps :
      (s : Schedule X.json.Json) (app : App X.json.Json) → P app → P (load_schedule X s app).1
  unfolding load_schedule load_without_next_run
  load_schedule-keeps s app h =
      let now = X.clock app.world.readings in
      elim (Option-cases s.next_run_at) [
        | inl absent ↦ simp absent (
            with_next_run-keeps s now (calculate_next_run X.cron s s.last_run_at now)
              (lift X (utc_now X) app).1 (clock_keeps app h))
        | inr (t, given) ↦
            simp given (
              schedules_keeps (HashMap.insert s.id s) (lift X (utc_now X) app).1
                (clock_keeps app h))
      ]

  load_schedules-keeps :
      (rows : List (Schedule X.json.Json)) (app : App X.json.Json)
      → P app
      → P (load_schedules X rows app).1
  unfolding load_schedules
  load_schedules-keeps [] app h = h
  load_schedules-keeps (s ∷ rows) app h =
      resume-keeps P (load_schedule X s app) (λ _. load_schedules X rows)
        (load_schedule-keeps s app h) (λ _ app' h'. load_schedules-keeps rows app' h')

  reload_schedules-keeps : (app : App X.json.Json) → P app → P (reload_schedules X app).1
  unfolding reload_schedules
  reload_schedules-keeps app h =
      resume-keeps P (lift X (get_schedules_for_device X app.scheduler.device_id) app)
        (λ rows. resume_clear rows) (read_keeps app.scheduler.device_id app h)
        (λ rows app' h'.
          load_schedules-keeps rows (on_schedules X (λ _. []) app').1
            (schedules_keeps (λ _. []) app' h'))
    where
      resume_clear : List (Schedule X.json.Json) → SchedulerAction X (Unit {0})
      resume_clear rows app' = load_schedules X rows (on_schedules X (λ _. []) app').1

  store_next_run-keeps :
      (s : Schedule X.json.Json) (now : DateTime) (r : Result X.SqlxError DateTime)
      (app : App X.json.Json)
      → P app
      → P (store_next_run X s now r app).1
  unfolding store_next_run
  store_next_run-keeps s now (err e) app h = h
  store_next_run-keeps s now (ok t) app h =
      resume-keeps P (lift X (update_schedule_last_run X s.job_id now (some t)) app)
        (λ _. on_schedules X (HashMap.modify s.id (mark_run X now t)))
        (update_keeps s.job_id now (some t) app h)
        (λ _ app' h'. schedules_keeps (HashMap.modify s.id (mark_run X now t)) app' h')

  queue_job-keeps :
      (s : Schedule X.json.Json) (app : App X.json.Json) → P app → P (queue_job X s app).1
  unfolding queue_job reschedule
  queue_job-keeps s app h =
      resume-keeps P (send X (execution_of X s) app) (λ _. reschedule X s)
        (send-keeps (execution_of X s) app h)
        λ _ app' h'.
          store_next_run-keeps s (X.clock app'.world.readings) _ (lift X (utc_now X) app').1
            (clock_keeps app' h')

  check_each-keeps :
      (now : DateTime) (schedules : List (Schedule X.json.Json)) (app : App X.json.Json)
      → P app
      → P (check_each X now schedules app).1
  unfolding check_each
  check_each-keeps now [] app h = h
  check_each-keeps now (s ∷ rest) app h = elim (Bool-cases s.enabled) [
    | inl enabled ↦ elim (Bool-cases (is_due s now)) [
      | inl due ↦
          simp (enabled, due)
            (check_each-keeps now rest (queue_job X s app).1 (queue_job-keeps s app h))
      | inr not_due ↦ simp (enabled, not_due) (check_each-keeps now rest app h)
    ]
    | inr disabled ↦ simp disabled (check_each-keeps now rest app h)
  ]

  -- A property that the clock, the two statements of the scheduler, changes of its map and messages
  -- keep holds after every call.
  pub perform-keeps : (call : Call) (app : App X.json.Json) → P app → P (perform X call app).1
  unfolding perform check_schedules trigger_manual_backup
  perform-keeps reload app h = reload_schedules-keeps app h
  perform-keeps check app h =
      check_each-keeps (X.clock app.world.readings) (HashMap.values app.scheduler.schedules)
        (lift X (utc_now X) app).1 (clock_keeps app h)
  perform-keeps (trigger job_id) app h = send-keeps _ app h

module _ (X : Externals) where
  -- The calls of the scheduler take no message back, and do not change whether the receiver is there.
  pub perform-sent :
      (call : Call) (app : App X.json.Json)
      → let after = (perform X call app).1.scheduler in
        ((more : List JobExecution) × (after.sent ≡ app.scheduler.sent ++ more))
        × (after.receiver_open ≡ app.scheduler.receiver_open)
  perform-sent call app =
      perform-keeps X
        (λ b.
          ((more : List JobExecution) × (b.scheduler.sent ≡ app.scheduler.sent ++ more))
          × (b.scheduler.receiver_open ≡ app.scheduler.receiver_open))
        (λ b h. h) (λ device_id b h. h) (λ job_id last_run next_run b h. h) (λ f b h. h)
        (λ m b is_open ((more, e), same). (
          (more ++ (m ∷ []), ap (λ l. l ++ (m ∷ [])) e ∙ append_assoc app.scheduler.sent more _),
          same,
        ))
        call app (([], sym (append-nil app.scheduler.sent)), refl)

  -- The loop of a check does not turn back the count of the readings of the clock.
  pub check_each-reads :
      (now : DateTime) (schedules : List (Schedule X.json.Json)) (app : App X.json.Json)
      → app.world.readings ≤ (check_each X now schedules app).1.world.readings
  unfolding get_schedules_for_device update_schedule_last_run query
  check_each-reads now schedules app =
      check_each-keeps X (λ b. app.world.readings ≤ b.world.readings) (λ b h. omega (arith, h))
        (λ device_id b h. omega (arith, h, query-readings X _ b.world))
        (λ job_id last_run next_run b h. omega (arith, h, query-readings X _ b.world)) (λ f b h. h)
        (λ m b is_open h. h) now schedules app (omega arith)
