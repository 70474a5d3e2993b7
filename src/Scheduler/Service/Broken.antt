-- ===== src/Scheduler/Service/Broken.antt =====
-- A schedule whose next run cannot be computed.
use rbackup.Base.{◌≡◌, ap, subst, sym, ◌∙◌, none, List, [], ◌∷◌, ◌++◌, ℕ}
use rbackup.Error.{Result, ok, err, AppError}
use rbackup.Models.{DateTime, Schedule}
use rbackup.External.{Externals}
use rbackup.Database.World.{State, resume, resume-eq-ok, utc_now}
use rbackup.Database.Reads.{get_schedules_for_device}
use rbackup.Scheduler.ScheduleCalc.{calculate_next_run}
use rbackup.Scheduler.Service.{
  App, lift, on_schedules, load_without_next_run, load_schedule, load_schedules, reload_schedules,
}
use rbackup.Scheduler.Service.Ticking.{tick_times, start_scheduler}

module _ (X : Externals) where
  -- The state in which the loop stops: the clock was read, and nothing else was done.
  abbrev pub stopped : App X.json.Json → App X.json.Json
  stopped app = (lift X (utc_now X) app).1

  -- The scheduler with the rows that were read, before they are loaded.
  abbrev pub cleared : App X.json.Json → State X → App X.json.Json
  cleared app w = (on_schedules X (λ _. []) (record app { world = w })).1

module _ (X : Externals) (bad : Schedule X.json.Json) (later : List (Schedule X.json.Json))
    (e : AppError X.SqlxError) where
  abbrev pub IsBroken : DateTime → Type 0
  IsBroken now =
      (bad.next_run_at ≡ none) × (calculate_next_run X.cron bad bad.last_run_at now ≡ err e)

  -- A chain that begins with an error ends with it.
  resume_of_err :
      {A B : Type 0} (r : Result X.SqlxError A) (app : App X.json.Json)
      (f : A → App X.json.Json → Result X.SqlxError B × App X.json.Json)
      → r ≡ err e
      → resume (r, app) f ≡ (err e, app)
  resume_of_err (err e') app f h = ap (λ x. (err x, app)) (cc h)
  resume_of_err (ok a) app f h = cc

  bad-stops :
      (app : App X.json.Json)
      → IsBroken (X.clock app.world.readings)
      → load_schedule X bad app ≡ (err e, stopped X app)
  unfolding load_schedule load_without_next_run
  bad-stops app (absent, failed) = simp absent (
      resume_of_err (calculate_next_run X.cron bad bad.last_run_at (X.clock app.world.readings))
        (stopped X app) _ failed)

  load_schedules-stops :
      (before : List (Schedule X.json.Json)) (app app1 : App X.json.Json)
      → load_schedules X before app ≡ (ok tt, app1)
      → IsBroken (X.clock app1.world.readings)
      → load_schedules X (before ++ (bad ∷ later)) app ≡ (err e, stopped X app1)
  unfolding load_schedules
  load_schedules-stops [] app app1 h broken =
      let same : app ≡ app1 = ap (λ (p : Result X.SqlxError (Unit {0}) × App X.json.Json). p.1) h in
      subst
        (λ a.
          resume (load_schedule X bad a) (λ _. load_schedules X later) ≡ (err e, stopped X app1))
        (sym same)
        (ap
          (λ (p : Result X.SqlxError (Unit {0}) × App X.json.Json).
            resume p (λ _. load_schedules X later))
          (bad-stops app1 broken))
  load_schedules-stops (s ∷ before) app app1 h broken =
      let (_, app2, loaded, rest) =
        resume-eq-ok (load_schedule X s app) (λ _. load_schedules X before) tt app1 h in
      ap
        (λ (p : Result X.SqlxError (Unit {0}) × App X.json.Json).
          resume p (λ _. load_schedules X (before ++ (bad ∷ later))))
        loaded
      ∙ load_schedules-stops before app2 app1 rest broken

  -- Where the schedules of the device are read, those before one of them are loaded, and this one has
  -- no next run and none can be computed, the scheduler's task ends with that error before its first
  -- tick: it makes no check, and none of the schedules that come later is loaded.
  pub start_scheduler-stops :
      (before : List (Schedule X.json.Json)) (app app1 : App X.json.Json) (w : State X) (ticks : ℕ)
      → get_schedules_for_device X app.scheduler.device_id app.world
        ≡ (ok (before ++ (bad ∷ later)), w)
      → load_schedules X before (cleared X app w) ≡ (ok tt, app1)
      → IsBroken (X.clock app1.world.readings)
      → start_scheduler X ticks app ≡ (err e, stopped X app1)
  unfolding start_scheduler reload_schedules
  start_scheduler-stops before app app1 w ticks read loaded broken =
      ap
        (λ (p : Result X.SqlxError (List (Schedule X.json.Json)) × State X).
          resume
            (resume (p.0, record app { world = p.1 })
              (λ rows read'. load_schedules X rows (on_schedules X (λ _. []) read').1))
            (λ _. tick_times X ticks))
        read
      ∙ ap
          (λ (p : Result X.SqlxError (Unit {0}) × App X.json.Json).
            resume p (λ _. tick_times X ticks))
          (load_schedules-stops before (cleared X app w) app1 loaded broken)
