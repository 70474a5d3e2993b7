-- ===== src/Scheduler/Service/Ticking/Due.antt =====
-- A schedule that comes due is queued, sooner or later.
use mathlib.Core.List.{append_assoc}
use rbackup.Base.{
  ℕ, zero, suc, ◌+◌, ◌≤◌, ◌≡◌, ◌≢◌, refl, sym, ap, subst, ◌∙◌, true, false, ◌&&◌, some, List, [],
  ◌∷◌, ◌++◌, map, All, inl, inr, ◌⊎◌, arith, Bool-cases, int_eq,
}
use rbackup.Base.Int.{ℤ, ◌≤ℤ◌}
use rbackup.Base.HashMap
use rbackup.Base.HashMap.{HashMap, NodupKeys}
use rbackup.Error.{Result, ok, err}
use rbackup.Models.{DateTime, Schedule}
use rbackup.External.{Externals}
use rbackup.Database.World.{utc_now}
use rbackup.Scheduler.ScheduleCalc.{is_due}
use rbackup.Scheduler.Service.{
  JobExecution, App, lift, mark_run, execution_of, queue_job, check_each, check_schedules,
}
use rbackup.Scheduler.Service.Calls.{check, perform}
use rbackup.Scheduler.Service.Queueing.{due_schedules, check_schedules-sent}
use rbackup.Scheduler.Service.Ticking.{tick_times}
use rbackup.Scheduler.Service.Rescheduling.{Rescheduled, queue_job-Rescheduled}
use rbackup.Scheduler.Service.Queueing.{queue_job-sent}
use rbackup.Scheduler.Service.Holding.{IsSound}
use rbackup.Scheduler.Service.Keeping.{check_each-reads, perform-sent}
use rbackup.Scheduler.Service.Calls.{perform-IsSound}
use rbackup.Scheduler.Service.Ticking.Held.{
  Contains, Contains-append_left, Contains-map-filter, only_held, held_value,
}

module _ (X : Externals) (id : ℤ) (s : Schedule X.json.Json) where
  Rescheduled-other :
      (w : Schedule X.json.Json) (now : DateTime) (app : App X.json.Json)
      (p : Result X.SqlxError (Unit {0}) × App X.json.Json)
      → w.id ≢ id
      → Rescheduled X w now app p
      → HashMap.get id p.1.scheduler.schedules ≡ HashMap.get id app.scheduler.schedules
  Rescheduled-other w now app (ok tt, app') differ (t, next, e, rows) =
      ap (HashMap.get id) e
      ∙ HashMap.get-modify_ne id w.id (mark_run X now t) app.scheduler.schedules
          (λ same. differ (sym same))
  Rescheduled-other w now app (err e', app') differ e = ap (HashMap.get id) e

  check_each-other :
      (now : DateTime) (rows : List (Schedule X.json.Json)) (app : App X.json.Json)
      → app.scheduler.receiver_open ≡ true
      → is_due s now ≡ false
      → All (λ (w : Schedule X.json.Json). (w.id ≢ id) ⊎ (w ≡ s)) rows
      → HashMap.get id (check_each X now rows app).1.scheduler.schedules
        ≡ HashMap.get id app.scheduler.schedules
  unfolding check_each
  check_each-other now [] app is_open early others = refl
  check_each-other now (w ∷ rows) app is_open early (other, others) = elim (Bool-cases w.enabled) [
    | inl enabled ↦ elim (Bool-cases (is_due w now)) [
      | inl due ↦
          let differ : w.id ≢ id = elim other [
            | inl differ ↦ differ
            | inr same ↦ absurd (cc (sym due ∙ ap (λ v. is_due v now) same ∙ early))
          ] in
          let (_, still_open) = queue_job-sent X w app is_open in
          let after = (queue_job X w app).1 in
          simp (enabled, due)
            (check_each-other now rows after (still_open ∙ is_open) early others
              ∙ Rescheduled-other w (X.clock app.world.readings) app (queue_job X w app) differ
                  (queue_job-Rescheduled X w app is_open))
      | inr not_due ↦ simp (enabled, not_due) (check_each-other now rows app is_open early others)
    ]
    | inr disabled ↦ simp disabled (check_each-other now rows app is_open early others)
  ]

  -- A check before the schedule is due leaves it as it is, and reads the clock.
  check_schedules-early :
      (app : App X.json.Json)
      → app.scheduler.receiver_open ≡ true
      → IsSound X app
      → HashMap.get id app.scheduler.schedules ≡ some s
      → is_due s (X.clock app.world.readings) ≡ false
      → let after = (check_schedules X app).1 in
        (HashMap.get id after.scheduler.schedules ≡ some s)
        × (suc app.world.readings ≤ after.world.readings)
  unfolding check_schedules
  check_schedules-early app is_open sound found early =
      let now = X.clock app.world.readings in
      let rows = HashMap.values app.scheduler.schedules in
      (
        check_each-other now rows (lift X (utc_now X) app).1 is_open early
              (only_held id s app.scheduler.schedules found sound)
            ∙ found,
        check_each-reads X now rows (lift X (utc_now X) app).1,
      )

  -- The messages that were sent between two states, with that of the schedule among them.
  abbrev pub HasSent : App X.json.Json → App X.json.Json → Type 0
  HasSent app app' =
      (more : List JobExecution) × (app'.scheduler.sent ≡ app.scheduler.sent ++ more)
      × Contains (execution_of X s) more

  check_schedules-due :
      (app : App X.json.Json)
      → app.scheduler.receiver_open ≡ true
      → HashMap.get id app.scheduler.schedules ≡ some s
      → s.enabled ≡ true
      → is_due s (X.clock app.world.readings) ≡ true
      → HasSent app (check_schedules X app).1
  check_schedules-due app is_open found enabled due =
      let now = X.clock app.world.readings in
      let (_, sent) = check_schedules-sent X app is_open in
      let (before, later, e) = held_value id s app.scheduler.schedules found in
      (
        _,
        sent,
        subst (λ l. Contains (execution_of X s) (map (execution_of X) (due_schedules X now l)))
            (sym e)
            (Contains-map-filter (execution_of X)
              (λ (w : Schedule X.json.Json). w.enabled && is_due w now) s before later
              (ground (arith, enabled, due))),
      )

  module _ (n : ℕ) (t : DateTime) (late : (m : ℕ) → n ≤ m → t ≤ℤ X.clock m)
      (enabled : s.enabled ≡ true) (next : s.next_run_at ≡ some t) where
    due_late : (m : ℕ) → n ≤ m → is_due s (X.clock m) ≡ true
    unfolding is_due
    due_late m h = ground (arith, next, late m h)

    -- By recursion on the readings of the clock that are left until the schedule is due.
    tick_until :
        (k : ℕ) (app : App X.json.Json)
        → n ≤ app.world.readings + k
        → app.scheduler.receiver_open ≡ true
        → IsSound X app
        → HashMap.get id app.scheduler.schedules ≡ some s
        → (ticks : ℕ) × HasSent app (tick_times X ticks app).1
    unfolding tick_times perform
    tick_until zero app h is_open sound found = (
      1,
      check_schedules-due app is_open found enabled
          (due_late app.world.readings (omega (arith, h))),
    )
    tick_until (suc k) app h is_open sound found =
        elim (Bool-cases (is_due s (X.clock app.world.readings))) [
          | inl due ↦ (1, check_schedules-due app is_open found enabled due)
          | inr early ↦
              let after = (check_schedules X app).1 in
              let (found', reads) = check_schedules-early app is_open sound found early in
              let ((more, sent), still_open) = perform-sent X check app in
              let (ticks, (more', sent', there)) =
                tick_until k after (omega (arith, h, reads)) (still_open ∙ is_open)
                  (perform-IsSound X check app sound) found' in
              (
                suc ticks,
                (
                  more ++ more',
                  sent' ∙ ap (λ l. l ++ more') sent ∙ append_assoc app.scheduler.sent more more',
                  Contains-append_left (execution_of X s) more more' there,
                ),
              )
        ]

-- The clock gets past every time and stays there.
abbrev pub IsUnbounded : (ℕ → DateTime) → Type 0
IsUnbounded clock = (t : DateTime) → (n : ℕ) × ((m : ℕ) → n ≤ m → t ≤ℤ clock m)

module _ (X : Externals) where
  -- A schedule that is held, enabled, and has a next run is queued after some number of ticks, whatever
  -- becomes of the queries of these and of the other schedules, where the clock gets past every time,
  -- the receiver is there, and the scheduler's invariant holds.
  pub tick_times-HasSent :
      (id : ℤ) (s : Schedule X.json.Json) (t : DateTime) (app : App X.json.Json)
      → IsUnbounded X.clock
      → app.scheduler.receiver_open ≡ true
      → IsSound X app
      → HashMap.get id app.scheduler.schedules ≡ some s
      → s.enabled ≡ true
      → s.next_run_at ≡ some t
      → (ticks : ℕ) × HasSent X id s app (tick_times X ticks app).1
  tick_times-HasSent id s t app unbounded is_open sound found enabled next =
      let (n, late) = unbounded t in
      tick_until X id s n t late enabled next n app (omega arith) is_open sound found
