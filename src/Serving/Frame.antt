-- ===== src/Serving/Frame.antt =====
-- What the calls of the scheduler leave alone in the database.
use rbackup.Base.{◌≡◌, refl, inl, inr, ◌⊎◌, subst, int_eq}
use rbackup.External.{Externals}
use rbackup.Database.World.{Tables}
use rbackup.Database.Queries.{query-tables}
use rbackup.Database.Reads.{get_schedules_for_device}
use rbackup.Database.Writes.{update_schedule_last_run}
use rbackup.Scheduler.Service.{App}
use rbackup.Scheduler.Service.Calls.{Call, perform}
use rbackup.Scheduler.Service.Keeping.{perform-keeps}

module _ (X : Externals) where
  -- The tables that the executor's tasks read and write.
  abbrev pub SameForTasks : Tables X.json.Json → Tables X.json.Json → Type 0
  SameForTasks a b =
      (b.runs ≡ a.runs)
      × (b.next_run_id ≡ a.next_run_id)
      × (b.backup_jobs ≡ a.backup_jobs)
      × (b.devices ≡ a.devices)

  -- What holds of the tables that a statement yields.
  abbrev Yields :
      {A : Type 0} → (Tables X.json.Json → Type 0) → X.SqlxError ⊎ (A × Tables X.json.Json) → Type 0
  Yields P (inl e) = Unit
  Yields P (inr (a, t)) = P t

  -- The calls of the scheduler write to nothing that a task reads or writes in the database.
  pub perform-SameForTasks :
      (call : Call) (app : App X.json.Json)
      → SameForTasks app.world.tables (perform X call app).1.world.tables
  unfolding get_schedules_for_device update_schedule_last_run
  perform-SameForTasks call app =
      let same = SameForTasks app.world.tables in
      perform-keeps X (λ b. same b.world.tables) (λ b h. h)
        (λ device_id b h. query-tables X _ b.world same h (λ a t e. subst (Yields same) e h))
        (λ job_id last_run next_run b h.
          query-tables X _ b.world same h (λ a t e. subst (Yields same) e h))
        (λ f b h. h) (λ m b is_open h. h) call app (refl, refl, refl, refl)
