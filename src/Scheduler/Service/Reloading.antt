-- ===== src/Scheduler/Service/Reloading.antt =====
-- Which schedules a reload takes over.
use mathlib.Core.List.{Memᴰ}
use mathlib.Core.List.Memᴰ
use rbackup.Base.{
  ◌≡◌, ◌↔◌, true, refl, sym, ap, subst, ◌∙◌, Bool, false, ◌||◌, some, List, [], ◌∷◌, arith, is_some,
  unwrap_or, Option-cases, inl, inr, int_eq, ◌==◌,
}
use rbackup.Base.Int.{ℤ}
use rbackup.Base.HashMap
use rbackup.Base.HashMap.{HashMap}
use rbackup.Error.{Result, ok, err}
use rbackup.Models.{DateTime, Schedule}
use rbackup.External.{Externals}
use rbackup.Database.World.{State, resume, resume-eq-ok, utc_now}
use rbackup.Database.Reads.{join_schedules, get_schedules_for_device}
use rbackup.Database.Reads.JoinedSchedules.{IsActive, mem-join_schedules_iff}
use rbackup.Database.Queries.{query-ok}
use rbackup.Database.Writes.{update_schedule_last_run}
use rbackup.Scheduler.ScheduleCalc.{calculate_next_run}
use rbackup.Scheduler.Service.{
  App, lift, on_schedules, load_without_next_run, load_schedule, load_schedules, reload_schedules,
}

-- Whether a schedule has this id.
abbrev has_id : {Json : Type 0} → ℤ → List (Schedule Json) → Bool
has_id id [] = false
has_id id (s ∷ rows) = id == s.id || has_id id rows

mem-has_id :
    {Json : Type 0} (s : Schedule Json) (rows : List (Schedule Json))
    → Memᴰ s rows
    → has_id s.id rows ≡ true
mem-has_id s [] m = absurd (Memᴰ.not-nil m)
mem-has_id s (r ∷ rows) (Memᴰ.head same) = ground (arith, ap (λ (q : Schedule _). q.id) same)
mem-has_id s (r ∷ rows) (Memᴰ.tail m) = ground (arith, mem-has_id s rows m)

mem_of_has_id :
    {Json : Type 0} (id : ℤ) (rows : List (Schedule Json))
    → has_id id rows ≡ true
    → (s : Schedule Json) × Memᴰ s rows × (s.id ≡ id)
mem_of_has_id id [] h = cc h
mem_of_has_id id (r ∷ rows) h = elim (int_eq.dec id r.id) [
  | yes same ↦ (r, Memᴰ.head refl, sym same)
  | no other ↦
      let (s, m, same) = mem_of_has_id id rows (ground (arith, h, other)) in (s, Memᴰ.tail m, same)
]

module _ (X : Externals) where
  -- The schedule was put into the map, with or without a next run of its own.
  abbrev IsInserted :
      Schedule X.json.Json
      → App X.json.Json
      → Result X.SqlxError (Unit {0}) × App X.json.Json
      → Type 0
  IsInserted s app (err _, app') = Unit
  IsInserted s app (ok _, app') =
      (held : Schedule X.json.Json) × (app'.scheduler.schedules
        ≡ HashMap.insert s.id held app.scheduler.schedules)

  with_next_run-IsInserted :
      (s : Schedule X.json.Json) (now : DateTime) (r : Result X.SqlxError DateTime)
      (app : App X.json.Json)
      → IsInserted s app (
          resume
            (r, app)
            (λ next_run app'.
              let (stored, app'') =
                lift X
                  (update_schedule_last_run X s.job_id
                    (unwrap_or s.last_run_at now)
                    (some next_run))
                  app' in
              on_schedules X
                (HashMap.insert s.id (record s { next_run_at = some next_run }))
                app''))
  with_next_run-IsInserted s now (err e) app = tt
  with_next_run-IsInserted s now (ok t) app = (record s { next_run_at = some t }, refl)

  load_schedule-IsInserted :
      (s : Schedule X.json.Json) (app : App X.json.Json) → IsInserted s app (load_schedule X s app)
  unfolding load_schedule load_without_next_run
  load_schedule-IsInserted s app =
      let now = X.clock app.world.readings in
      elim (Option-cases s.next_run_at) [
        | inl absent ↦ simp absent (
            with_next_run-IsInserted s now (calculate_next_run X.cron s s.last_run_at now)
              (lift X (utc_now X) app).1)
        | inr (t, given) ↦ simp given (s, refl)
      ]

  load_schedules-ids :
      (id : ℤ) (rows : List (Schedule X.json.Json)) (app app' : App X.json.Json)
      → load_schedules X rows app ≡ (ok tt, app')
      → is_some (HashMap.get id app'.scheduler.schedules)
        ≡ (has_id id rows || is_some (HashMap.get id app.scheduler.schedules))
  unfolding load_schedules
  load_schedules-ids id [] app app' h =
      ap
        (λ (p : Result X.SqlxError (Unit {0}) × App X.json.Json).
          is_some (HashMap.get id p.1.scheduler.schedules))
        (sym h)
  load_schedules-ids id (s ∷ rows) app app' h =
      let (_, app1, loaded, rest) =
        resume-eq-ok (load_schedule X s app) (λ _. load_schedules X rows) tt app' h in
      let (held, changed) = subst (IsInserted s app) loaded (load_schedule-IsInserted s app) in
      ground (
        arith,
        load_schedules-ids id rows app1 app' rest,
        ap (HashMap.get id) changed ∙ HashMap.get-insert id s.id held app.scheduler.schedules,
      )

  after_read :
      (id : ℤ) (app app' : App X.json.Json)
      (p : Result X.SqlxError (List (Schedule X.json.Json)) × State X)
      → get_schedules_for_device X app.scheduler.device_id app.world ≡ p
      → resume
          (p.0, record app { world = p.1 })
          (λ rows read. load_schedules X rows (on_schedules X (λ _. []) read).1)
        ≡ (ok tt, app')
      → is_some (HashMap.get id app'.scheduler.schedules)
        ≡ has_id id (
            join_schedules app.scheduler.device_id app.world.tables.backup_jobs
              app.world.tables.schedules)
  unfolding get_schedules_for_device HashMap.get
  after_read id app app' (err e', w) e h = cc
  after_read id app app' (ok rows, w) e h =
      let (t, answered, _) = query-ok X _ app.world rows w e in
      let ids =
        load_schedules-ids id rows (on_schedules X (λ _. []) (record app { world = w })).1 app' h in
      let rows_are : join_schedules app.scheduler.device_id app.world.tables.backup_jobs
            app.world.tables.schedules
          ≡ rows =
        cc answered in
      rw rows_are (ground (arith, ids))

  -- After a reload that returns no error, the scheduler holds a schedule under an id exactly where
  -- the table of schedules has an enabled schedule with this id, and there is an enabled job of the
  -- device with the job id of that schedule.
  pub reload_schedules-ids :
      (id : ℤ) (app app' : App X.json.Json)
      → reload_schedules X app ≡ (ok tt, app')
      → (is_some (HashMap.get id app'.scheduler.schedules) ≡ true) ↔ (
          (s : Schedule X.json.Json) × Memᴰ s app.world.tables.schedules
          × (s.id ≡ id)
          × IsActive app.scheduler.device_id app.world.tables.backup_jobs s)
  unfolding reload_schedules
  reload_schedules-ids id app app' h =
      let rows =
        join_schedules app.scheduler.device_id app.world.tables.backup_jobs
          app.world.tables.schedules in
      let joined = mem-join_schedules_iff app.scheduler.device_id app.world.tables.backup_jobs in
      let read =
        after_read id app app' (get_schedules_for_device X app.scheduler.device_id app.world) refl
          h in
      (
        λ held.
            let (s, m, same) = mem_of_has_id id rows (sym read ∙ held) in
            let (m', active) = (joined s app.world.tables.schedules).0 m in (s, m', same, active),
        λ (s, m, same, active).
            let m' = (joined s app.world.tables.schedules).1 (m, active) in
            read ∙ subst (λ k. has_id k rows ≡ true) same (mem-has_id s rows m'),
      )
