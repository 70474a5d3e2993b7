-- ===== src/Scheduler/Service/Rescheduling.antt =====
-- What queueing a job does to the schedule that it came from, and to the other schedules of the job.
use rbackup.Base.{
  ◌≡◌, refl, sym, ap, subst, ◌∙◌, true, false, some, List, [], ◌∷◌, ◌++◌, arith, All, int_eq,
  nat_eq, ◌==◌,
}
use rbackup.Base.Int.{◌<ℤ◌}
use rbackup.Base.HashMap
use rbackup.Base.HashMap.{HashMap}
use rbackup.Error.{Result, ok, err, AppError}
use rbackup.Models.{DateTime, Schedule}
use rbackup.External.{Externals}
use rbackup.Database.World.{Tables, State, resume, utc_now}
use rbackup.Database.Writes.{update_where, update_schedule_last_run}
use rbackup.Database.Queries.{query-ok}
use rbackup.Scheduler.ScheduleCalc.{IsLater, calculate_next_run, is_due}
use rbackup.Scheduler.ScheduleCalc.NextRun.{is_due-calculate_next_run}
use rbackup.Scheduler.Service.{
  App, lift, on_schedules, mark_run, store_next_run, reschedule, execution_of, queue_job,
}
use rbackup.Scheduler.Service.Queueing.{after_send, queue_job-open, queue_job-sent}

module _ (X : Externals) (s : Schedule X.json.Json) where
  -- The next run that is computed for a job queued at `now`.
  abbrev pub next_run : DateTime → Result X.SqlxError DateTime
  next_run now = calculate_next_run X.cron s (some now) now

  -- The rows of the job's schedules, after an update with these times.
  abbrev pub RowsMarked : DateTime → DateTime → List (Schedule X.json.Json) → Type 0
  RowsMarked now t = All λ (row : Schedule X.json.Json).
      row.job_id ≡ s.job_id → (row.last_run_at ≡ some now) × (row.next_run_at ≡ some t)

  -- What rescheduling at `now` has done, by its result.
  abbrev pub Rescheduled :
      DateTime → App X.json.Json → Result X.SqlxError (Unit {0}) × App X.json.Json → Type 0
  Rescheduled now app (ok _, app') =
      (t : DateTime) × (next_run now ≡ ok t)
      × (app'.scheduler.schedules ≡ HashMap.modify s.id (mark_run X now t) app.scheduler.schedules)
      × RowsMarked now t app'.world.tables.schedules
  Rescheduled now app (err _, app') = app'.scheduler.schedules ≡ app.scheduler.schedules

  update_where-RowsMarked :
      (now t stamp : DateTime) (rows : List (Schedule X.json.Json))
      → RowsMarked now t (
          update_where
            (λ (row : Schedule X.json.Json). row.job_id == s.job_id)
            (λ (row : Schedule X.json.Json). record row {
              last_run_at = some now;
              next_run_at = some t;
              updated_at = stamp;
            })
            rows)
  update_where-RowsMarked now t stamp [] = tt
  update_where-RowsMarked now t stamp (row ∷ rows) =
      (λ e. ground arith, update_where-RowsMarked now t stamp rows)

  abbrev marked : DateTime → DateTime → DateTime → Tables X.json.Json → Tables X.json.Json
  marked now t stamp tables = record tables {
    schedules =
        update_where (λ (row : Schedule X.json.Json). row.job_id == s.job_id)
          (λ (row : Schedule X.json.Json). record row {
            last_run_at = some now;
            next_run_at = some t;
            updated_at = stamp;
          })
          tables.schedules;
  }

  update-RowsMarked :
      (now t : DateTime) (w w' : State X)
      → update_schedule_last_run X s.job_id now (some t) w ≡ (ok tt, w')
      → RowsMarked now t w'.tables.schedules
  unfolding update_schedule_last_run
  update-RowsMarked now t w w' h =
      let (tables, e, same) = query-ok X _ w tt w' h in
      let carried : marked now t (X.server_clock w.queries) w.tables ≡ tables = cc e in
      subst (λ (v : State X). RowsMarked now t v.tables.schedules) (sym same)
        (subst (λ (v : Tables X.json.Json). RowsMarked now t v.schedules) carried
          (update_where-RowsMarked now t (X.server_clock w.queries) w.tables.schedules))

  after_update-Rescheduled :
      (now t : DateTime) (app : App X.json.Json) (p : Result X.SqlxError (Unit {0}) × State X)
      → next_run now ≡ ok t
      → update_schedule_last_run X s.job_id now (some t) app.world ≡ p
      → Rescheduled now app (
          resume
            (p.0, record app { world = p.1 })
            (λ _. on_schedules X (HashMap.modify s.id (mark_run X now t))))
  after_update-Rescheduled now t app (ok tt, w') next e =
      (t, next, refl, update-RowsMarked now t app.world w' e)
  after_update-Rescheduled now t app (err e', w') next e = refl

  store_next_run-Rescheduled :
      (now : DateTime) (r : Result X.SqlxError DateTime) (app : App X.json.Json)
      → next_run now ≡ r
      → Rescheduled now app (store_next_run X s now r app)
  unfolding store_next_run
  store_next_run-Rescheduled now (err e) app next = refl
  store_next_run-Rescheduled now (ok t) app next =
      after_update-Rescheduled now t app
        (update_schedule_last_run X s.job_id now (some t) app.world) next refl

  pub queue_job-Rescheduled :
      (app : App X.json.Json)
      → app.scheduler.receiver_open ≡ true
      → Rescheduled (X.clock app.world.readings) app (queue_job X s app)
  unfolding reschedule
  queue_job-Rescheduled app is_open =
      let now = X.clock app.world.readings in
      subst (Rescheduled now app) (sym (queue_job-open X s app is_open)) (
        store_next_run-Rescheduled now (next_run now)
          (lift X (utc_now X) (after_send X app (execution_of X s))).1 refl)

module _ (X : Externals) (s : Schedule X.json.Json) where
  marked_not_due :
      (now t : DateTime) (held : Schedule X.json.Json)
      → now <ℤ t
      → is_due (mark_run X now t held) now ≡ false
  unfolding mark_run is_due
  marked_not_due now t held later = ground arith

  last_run_at-mark_run :
      (now t : DateTime) (held : Schedule X.json.Json)
      → (mark_run X now t held).last_run_at ≡ some now
  unfolding mark_run
  last_run_at-mark_run now t held = refl

  -- Where a schedule is held under the id of the one that is queued, and `queue_job` returns
  -- without an error, its message has been sent, and the schedule then held under the id was last
  -- run at the time of the call and is not due at that time. The times of the `cron` crate are
  -- taken to be later than asked, and the receiver to be there.
  pub queue_job-not_due :
      (app app' : App X.json.Json) (held : Schedule X.json.Json)
      → IsLater X.cron
      → app.scheduler.receiver_open ≡ true
      → HashMap.get s.id app.scheduler.schedules ≡ some held
      → queue_job X s app ≡ (ok tt, app')
      → let now = X.clock app.world.readings in
        (app'.scheduler.sent ≡ app.scheduler.sent ++ (execution_of X s ∷ []))
        × ((held' : Schedule X.json.Json) × (HashMap.get s.id app'.scheduler.schedules ≡ some held')
            × (held'.last_run_at ≡ some now)
            × (is_due held' now ≡ false))
  queue_job-not_due app app' held law is_open found h =
      let now = X.clock app.world.readings in
      let (t, next, changed, rows) =
        subst (Rescheduled X s now app) h (queue_job-Rescheduled X s app is_open) in
      let (later, _) = is_due-calculate_next_run X.cron s (some now) now t law refl next in
      let (sent, _) = queue_job-sent X s app is_open in
      (
        ap (λ (p : Result X.SqlxError (Unit {0}) × App X.json.Json). p.1.scheduler.sent) (sym h)
            ∙ sent,
        (
          mark_run X now t held,
          ap (HashMap.get s.id) changed
              ∙ HashMap.get-modify_self s.id (mark_run X now t) app.scheduler.schedules found,
          last_run_at-mark_run now t held,
          marked_not_due now t held later,
        ),
      )

  -- Where `queue_job` returns an error although the receiver is there, the message has been sent,
  -- and every schedule is held as before.
  pub queue_job-err :
      (app app' : App X.json.Json) {e : AppError X.SqlxError}
      → app.scheduler.receiver_open ≡ true
      → queue_job X s app ≡ (err e, app')
      → (app'.scheduler.sent ≡ app.scheduler.sent ++ (execution_of X s ∷ []))
        × (app'.scheduler.schedules ≡ app.scheduler.schedules)
  queue_job-err app app' is_open h =
      let now = X.clock app.world.readings in
      let (sent, _) = queue_job-sent X s app is_open in
      (
        ap (λ (p : Result X.SqlxError (Unit {0}) × App X.json.Json). p.1.scheduler.sent) (sym h)
            ∙ sent,
        subst (Rescheduled X s now app) h (queue_job-Rescheduled X s app is_open),
      )

  -- Where the receiver is there and `queue_job` returns without an error, all schedules of the job
  -- in the database, of whatever type and expression, carry the last run and the next run of the
  -- one that was queued.
  pub queue_job-marks_siblings :
      (app app' : App X.json.Json)
      → app.scheduler.receiver_open ≡ true
      → queue_job X s app ≡ (ok tt, app')
      → (t : DateTime) × (next_run X s (X.clock app.world.readings) ≡ ok t)
        × RowsMarked X s (X.clock app.world.readings) t app'.world.tables.schedules
  queue_job-marks_siblings app app' is_open h =
      let (t, next, changed, rows) =
        subst (Rescheduled X s (X.clock app.world.readings) app) h
          (queue_job-Rescheduled X s app is_open) in
      (t, next, rows)
