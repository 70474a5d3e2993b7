-- ===== src/Scheduler/Service/Holding.antt =====
-- What the scheduler holds: an invariant of all its operations.
use rbackup.Base.{
  ◌≡◌, refl, ◌≢◌, none, some, List, [], ◌∷◌, All, unwrap_or, Bool-cases, inl, inr, int_eq, ◌==◌,
  Option-cases,
}
use rbackup.Base.Int.{ℤ}
use rbackup.Base.HashMap
use rbackup.Base.HashMap.{HashMap, NodupKeys}
use rbackup.Error.{Result, ok, err}
use rbackup.Models.{DateTime, Schedule}
use rbackup.External.{Externals}
use rbackup.Database.World.{resume-keeps, resume, utc_now}
use rbackup.Database.Reads.{get_schedules_for_device}
use rbackup.Database.Writes.{update_schedule_last_run}
use rbackup.Scheduler.ScheduleCalc.{calculate_next_run}
use rbackup.Scheduler.Service.{
  App, SchedulerAction, lift, on_schedules, load_without_next_run, load_schedule, load_schedules,
  reload_schedules,
}

module _ {Json : Type 0} where
  -- A schedule held under its own id, with a next run.
  abbrev pub IsHeld : ℤ × Schedule Json → Type 0
  IsHeld (id, s) = (s.id ≡ id) × (s.next_run_at ≢ none)

  -- No id is held twice.
  abbrev pub IsHolding : HashMap ℤ (Schedule Json) → Type 0
  IsHolding m = All IsHeld m × NodupKeys m

  insert-All :
      (id : ℤ) (s : Schedule Json) (m : HashMap ℤ (Schedule Json))
      → IsHeld (id, s)
      → All IsHeld m
      → All IsHeld (HashMap.insert id s m)
  unfolding HashMap.insert
  insert-All id s [] h all = (h, tt)
  insert-All id s ((j, w) ∷ m) h (first, all) = elim (Bool-cases (id == j)) [
    | inl same ↦ rw (same, HashMap.insert) (h, all)
    | inr differ ↦ rw (differ, HashMap.insert) (first, insert-All id s m h all)
  ]

  pub modify-All :
      (id : ℤ) (f : Schedule Json → Schedule Json) (m : HashMap ℤ (Schedule Json))
      → ((j : ℤ) (s : Schedule Json) → IsHeld (j, s) → IsHeld (j, f s))
      → All IsHeld m
      → All IsHeld (HashMap.modify id f m)
  unfolding HashMap.modify
  modify-All id f [] keeps all = tt
  modify-All id f ((j, w) ∷ m) keeps (first, all) = elim (Bool-cases (id == j)) [
    | inl same ↦ rw (same, HashMap.modify) (keeps j w first, all)
    | inr differ ↦ rw (differ, HashMap.modify) (first, modify-All id f m keeps all)
  ]

module _ (X : Externals) where
  -- The invariant of the scheduler.
  abbrev pub IsSound : App X.json.Json → Type 0
  IsSound app = IsHolding app.scheduler.schedules

  insert-IsSound :
      (s : Schedule X.json.Json) (app : App X.json.Json)
      → s.next_run_at ≢ none
      → IsSound app
      → IsSound (on_schedules X (HashMap.insert s.id s) app).1
  insert-IsSound s app ready (all, u) = (
    insert-All s.id s app.scheduler.schedules (refl, ready) all,
    HashMap.insert-NodupKeys s.id s app.scheduler.schedules u,
  )

  with_next_run-IsSound :
      (s : Schedule X.json.Json) (now : DateTime) (r : Result X.SqlxError DateTime)
      (app : App X.json.Json)
      → IsSound app
      → IsSound
          (resume
            (r, app)
            (λ next_run app'.
              let (stored, app'') =
                lift X
                  (update_schedule_last_run X s.job_id
                    (unwrap_or s.last_run_at now)
                    (some next_run))
                  app' in
              on_schedules X
                (HashMap.insert s.id (record s { next_run_at = some next_run }))
                app'')).1
  with_next_run-IsSound s now (err e) app h = h
  with_next_run-IsSound s now (ok t) app h =
      insert-IsSound (record s { next_run_at = some t })
        (lift X (update_schedule_last_run X s.job_id (unwrap_or s.last_run_at now) (some t)) app).1
        (λ e. cc) h

  load_schedule-IsSound :
      (s : Schedule X.json.Json) (app : App X.json.Json)
      → IsSound app
      → IsSound (load_schedule X s app).1
  unfolding load_schedule load_without_next_run
  load_schedule-IsSound s app h =
      let now = X.clock app.world.readings in
      elim (Option-cases s.next_run_at) [
        | inl absent ↦ simp absent (
            with_next_run-IsSound s now (calculate_next_run X.cron s s.last_run_at now)
              (lift X (utc_now X) app).1 h)
        | inr (t, given) ↦ simp given (insert-IsSound s (lift X (utc_now X) app).1 (λ e. cc) h)
      ]

  load_schedules-IsSound :
      (rows : List (Schedule X.json.Json)) (app : App X.json.Json)
      → IsSound app
      → IsSound (load_schedules X rows app).1
  unfolding load_schedules
  load_schedules-IsSound [] app h = h
  load_schedules-IsSound (s ∷ rows) app h =
      resume-keeps IsSound (load_schedule X s app) (λ _. load_schedules X rows)
        (load_schedule-IsSound s app h) (λ _ app' h'. load_schedules-IsSound rows app' h')

  pub reload_schedules-IsSound :
      (app : App X.json.Json) → IsSound app → IsSound (reload_schedules X app).1
  unfolding reload_schedules
  reload_schedules-IsSound app h =
      resume-keeps IsSound (lift X (get_schedules_for_device X app.scheduler.device_id) app)
        (λ rows. resume_clear rows) h
        (λ rows app' h'. load_schedules-IsSound rows (on_schedules X (λ _. []) app').1 (tt, tt))
    where
      resume_clear : List (Schedule X.json.Json) → SchedulerAction X (Unit {0})
      resume_clear rows app' = load_schedules X rows (on_schedules X (λ _. []) app').1
