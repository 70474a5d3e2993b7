-- ===== src/Scheduler/Service/Queueing.antt =====
-- Which jobs a check of the schedules queues, and what queueing does to a schedule.
use mathlib.Core.List.{append_assoc, append-nil}
use rbackup.Base.{
  ◌≡◌, refl, sym, ap, ◌∙◌, true, ◌&&◌, some, List, [], ◌∷◌, ◌++◌, map, inl, inr, filter, Bool-cases,
  int_eq, nat_eq,
}
use rbackup.Base.Int.{ℤ}
use rbackup.Base.HashMap
use rbackup.Error.{Result, ok, err}
use rbackup.Models.{DateTime, Schedule}
use rbackup.External.{Externals}
use rbackup.Database.World.{resume, utc_now}
use rbackup.Database.Writes.{update_schedule_last_run}
use rbackup.Scheduler.ScheduleCalc.{calculate_next_run, is_due}
use rbackup.Scheduler.Service.{
  JobExecution, App, lift, on_schedules, send, mark_run, store_next_run, reschedule, execution_of,
  queue_job, check_each, check_schedules,
}

module _ (X : Externals) where
  -- The part of the scheduler's state that rescheduling leaves alone.
  abbrev pub SameChannel : App X.json.Json → App X.json.Json → Type 0
  SameChannel a b =
      (b.scheduler.sent ≡ a.scheduler.sent)
      × (b.scheduler.receiver_open ≡ a.scheduler.receiver_open)

  then_change-SameChannel :
      (app : App X.json.Json) (p : Result X.SqlxError (Unit {0}) × App X.json.Json)
      (f : HashMap.HashMap ℤ (Schedule X.json.Json) → HashMap.HashMap ℤ (Schedule X.json.Json))
      → SameChannel app p.1
      → SameChannel app (resume p (λ _. on_schedules X f)).1
  then_change-SameChannel app (ok tt, b) f h = h
  then_change-SameChannel app (err e, b) f h = h

  store_next_run-SameChannel :
      (s : Schedule X.json.Json) (now : DateTime) (r : Result X.SqlxError DateTime)
      (app : App X.json.Json)
      → SameChannel app (store_next_run X s now r app).1
  unfolding store_next_run
  store_next_run-SameChannel s now (err e) app = (refl, refl)
  store_next_run-SameChannel s now (ok next_run) app =
      then_change-SameChannel app
        (lift X (update_schedule_last_run X s.job_id now (some next_run)) app)
        (HashMap.modify s.id (mark_run X now next_run)) (refl, refl)

  reschedule-SameChannel :
      (s : Schedule X.json.Json) (app : App X.json.Json) → SameChannel app (reschedule X s app).1
  unfolding reschedule
  reschedule-SameChannel s app =
      let now = X.clock app.world.readings in
      store_next_run-SameChannel s now (calculate_next_run X.cron s (some now) now)
        (lift X (utc_now X) app).1

  -- The channel and the schedules after a message has been sent.
  abbrev pub after_send : App X.json.Json → JobExecution → App X.json.Json
  after_send app execution = record app {
    scheduler = record app.scheduler { sent = app.scheduler.sent ++ (execution ∷ []) };
  }

  pub queue_job-open :
      (s : Schedule X.json.Json) (app : App X.json.Json)
      → app.scheduler.receiver_open ≡ true
      → queue_job X s app ≡ reschedule X s (after_send app (execution_of X s))
  unfolding queue_job send
  queue_job-open s app is_open = rw is_open refl

  pub queue_job-sent :
      (s : Schedule X.json.Json) (app : App X.json.Json)
      → app.scheduler.receiver_open ≡ true
      → SameChannel (after_send app (execution_of X s)) (queue_job X s app).1
  queue_job-sent s app is_open =
      rw (queue_job-open s app is_open)
        (reschedule-SameChannel s (after_send app (execution_of X s)))

  -- The schedules that a check finds enabled and due.
  abbrev pub due_schedules : DateTime → List (Schedule X.json.Json) → List (Schedule X.json.Json)
  due_schedules now = filter (λ (s : Schedule X.json.Json). s.enabled && is_due s now)

  -- A check goes on to the end, and has sent these messages.
  abbrev HasQueued :
      App X.json.Json → List JobExecution → Result X.SqlxError (Unit {0}) × App X.json.Json → Type 0
  HasQueued app messages (r, b) =
      (r ≡ ok tt)
      × (b.scheduler.sent ≡ app.scheduler.sent ++ messages)
      × (b.scheduler.receiver_open ≡ true)

  check_each-HasQueued :
      (now : DateTime) (schedules : List (Schedule X.json.Json)) (app : App X.json.Json)
      → app.scheduler.receiver_open ≡ true
      → HasQueued app
          (map (execution_of X) (due_schedules now schedules))
          (check_each X now schedules app)
  unfolding check_each
  check_each-HasQueued now [] app is_open = (refl, sym (append-nil app.scheduler.sent), is_open)
  check_each-HasQueued now (s ∷ rest) app is_open = elim (Bool-cases s.enabled) [
    | inl enabled ↦ elim (Bool-cases (is_due s now)) [
      | inl due ↦
          let (sent, still_open) = queue_job-sent s app is_open in
          let after = (queue_job X s app).1 in
          let (fine, sent', open') = check_each-HasQueued now rest after (still_open ∙ is_open) in
          simp (enabled, due)
            (
              fine,
              sent'
                  ∙ ap (λ l. l ++ map (execution_of X) (due_schedules now rest)) sent
                  ∙ append_assoc app.scheduler.sent (execution_of X s ∷ []) _,
              open',
            )
      | inr not_due ↦ simp (enabled, not_due) (check_each-HasQueued now rest app is_open)
    ]
    | inr disabled ↦ simp disabled (check_each-HasQueued now rest app is_open)
  ]

  -- A check never fails, and sends one message for each schedule that it holds and finds enabled and
  -- due at the time of the check, in the order of the map, and no other, whatever becomes of the
  -- updates of the database. The receiver has to be there.
  pub check_schedules-sent :
      (app : App X.json.Json)
      → app.scheduler.receiver_open ≡ true
      → let now = X.clock app.world.readings in
        let (r, app') = check_schedules X app in
        (r ≡ ok tt)
        × (app'.scheduler.sent
            ≡ app.scheduler.sent
              ++ map (execution_of X) (due_schedules now (HashMap.values app.scheduler.schedules)))
  unfolding check_schedules
  check_schedules-sent app is_open =
      let (fine, sent, _) =
        check_each-HasQueued (X.clock app.world.readings) (HashMap.values app.scheduler.schedules)
          (lift X (utc_now X) app).1 is_open in
      (fine, sent)
