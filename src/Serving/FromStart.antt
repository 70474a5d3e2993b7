-- ===== src/Serving/FromStart.antt =====
-- The whole program, from its start to any state that its tasks reach.
use rbackup.Base.{All, ◌≡◌, refl, sym, ap, subst, ◌∙◌, String, Option, none, some, string_eq, ℕ}
use rbackup.Base.Int.{ℤ}
use rbackup.Error.{Result, ok, err, ok_or}
use rbackup.Models.{Uuid, Run}
use rbackup.Config.Local.{LocalConfig, from_file, database_url}
use rbackup.Config.Remote.{RemoteConfig, repository_url}
use rbackup.Config.Loading.{load_config_from_db, load_config_from_db-ok}
use rbackup.External.{Externals}
use rbackup.Database.World.{Tables, State, resume, resume-eq-ok, pure}
use rbackup.Database.Writes.{upsert_device}
use rbackup.Database.Writes.Devices.{upsert_device-runs}
use rbackup.Client.TestBackup.{ok_or-ok}
use rbackup.Database.Runs.{find_run, IsOld, IsFresh}
use rbackup.Client.{Mode, not_empty, prepare, test_backup, choose_mode, platform}
use rbackup.Client
use rbackup.Client.Startup.{
  Surroundings, Outcome, returned, panicked, setup_logging, create_pool, run_migrations,
  run_connected, run_logged, run_configured, run_program,
}
use rbackup.Serving.{ServingOf, begin_serving, Move, Moves, then_move}
use rbackup.Serving.Lifecycle.{lives, LifeStep}
use rbackup.Serving.Lifecycle.Refinement.{Moves-LifeStep}
use rbackup.Serving.Lifecycle.Old.{find_run-old}

module _ (X : Externals) where
  -- The runs and the sequence of their ids.
  abbrev SameRuns : Tables X.json.Json → Tables X.json.Json → Type 0
  SameRuns a b = (b.runs ≡ a.runs) × (b.next_run_id ≡ a.next_run_id)

  prepare-SameRuns :
      (config : LocalConfig) (platform_name : String) (hostname : Option String) (w w' : State X)
      (c : RemoteConfig X.json.Json)
      → prepare X config platform_name hostname w ≡ (ok c, w')
      → SameRuns w.tables w'.tables
  unfolding prepare
  prepare-SameRuns config platform_name hostname w w' c h =
      let (d, w1, registered, rest) =
        resume-eq-ok (upsert_device X config.device.id config.device.id platform_name hostname w) _
          c w' h in
      let (loaded, w2, read, rest1) =
        resume-eq-ok (load_config_from_db X config.device.id w1) _ c w' rest in
      let (url, w3, given, last) =
        resume-eq-ok (ok_or (not_empty (repository_url loaded)) _, w2) _ c w' rest1 in
      let (runs, next) =
        upsert_device-runs X config.device.id config.device.id platform_name hostname w w1 d
          registered in
      let (tables, _, _, _) = load_config_from_db-ok X config.device.id w1 w2 loaded read in
      let (_, same) = ok_or-ok (not_empty (repository_url loaded)) _ url w2 w3 given in
      let back : w3 ≡ w' =
        ap (λ (p : Result X.SqlxError (RemoteConfig X.json.Json) × State X). p.1) last in
      let unchanged : w'.tables ≡ w1.tables =
        ap (λ (v : State X). v.tables) (sym (same ∙ back)) ∙ tables in
      (
        ap (λ (t : Tables X.json.Json). t.runs) unchanged ∙ runs,
        ap (λ (t : Tables X.json.Json). t.next_run_id) unchanged ∙ next,
      )

  test_then_serving :
      (run : Result X.SqlxError (Run X.json.Json) × State X) (v w' : State X) (limit : ℕ)
      → resume run (λ r. pure (Mode.tested r)) ≡ (ok (Mode.serving limit), w')
      → v ≡ w'
  test_then_serving (ok r, w) v w' limit h = cc
  test_then_serving (err e, w) v w' limit h = cc

  -- The tasks are started without a further query, and only where there is no backup to test.
  choose_serving :
      (c : RemoteConfig X.json.Json) (test : Option Uuid) (w w' : State X) (limit : ℕ)
      → choose_mode X c test w ≡ (ok (Mode.serving limit), w')
      → w ≡ w'
  unfolding choose_mode
  choose_serving c none w w' limit h =
      ap (λ (p : Result X.SqlxError (Mode X.json.Json) × State X). p.1) h
  choose_serving c (some job_id) w w' limit h =
      test_then_serving (test_backup X c job_id w) w w' limit h

  run-serving :
      (config : LocalConfig) (test : Option Uuid) (platform_name : String)
      (hostname : Option String) (w w' : State X) (limit : ℕ)
      → Client.run X config test platform_name hostname w ≡ (ok (Mode.serving limit), w')
      → SameRuns w.tables w'.tables
  unfolding Client.run
  run-serving config test platform_name hostname w w' limit h =
      let (c, w1, prepared, chosen) =
        resume-eq-ok (prepare X config platform_name hostname w) _ (Mode.serving limit) w' h in
      let same : w1 ≡ w' = choose_serving c test w1 w' limit chosen in
      subst (λ (v : State X). SameRuns w.tables v.tables) same
        (prepare-SameRuns config platform_name hostname w w1 c prepared)

module _ (X : Externals) (env : Surroundings X.json.Json X.SqlxError) where
  -- The tables after the migrations.
  abbrev pub migrated : State X → Tables X.json.Json
  migrated w = (env.migrate w.tables).1

  connected-SameRuns :
      (config : LocalConfig) (w w' : State X) (limit : ℕ)
      → run_connected X env config w ≡ (ok (Mode.serving limit), w')
      → SameRuns X (migrated w) w'.tables
  unfolding run_connected create_pool run_migrations
  connected-SameRuns config w w' limit h =
      let (_, w1, made, rest) =
        resume-eq-ok (create_pool X env (database_url config) w) _ (Mode.serving limit) w' h in
      let (_, w2, ran, rest1) =
        resume-eq-ok (run_migrations X env w1) _ (Mode.serving limit) w' rest in
      let same : w ≡ w1 = ap (λ (p : Result X.SqlxError (Unit {0}) × State X). p.1) made in
      let after : migrated w1 ≡ w2.tables =
        ap (λ (p : Result X.SqlxError (Unit {0}) × State X). p.1.tables) ran in
      subst (λ (t : Tables X.json.Json). SameRuns X t w'.tables) (sym (ap migrated same ∙ after))
        (run-serving X config env.test_backup _ env.hostname w2 w' limit rest1)

  logged-SameRuns :
      (config : LocalConfig) (outcome : Outcome (Result X.SqlxError (Unit {0}))) (w w' : State X)
      (limit : ℕ)
      → run_logged X env config outcome w ≡ (returned (ok (Mode.serving limit)), w')
      → SameRuns X (migrated w) w'.tables
  unfolding run_logged
  logged-SameRuns config (panicked message) w w' limit h = cc
  logged-SameRuns config (returned (err e)) w w' limit h = cc
  logged-SameRuns config (returned (ok a)) w w' limit h =
      connected-SameRuns config w w' limit (as_pair (run_connected X env config w) h)
    where
      as_pair :
          (p : Result X.SqlxError (Mode X.json.Json) × State X)
          → let q : Outcome (Result X.SqlxError (Mode X.json.Json)) × State X =
              (returned p.0, p.1) in
            q ≡ (returned (ok (Mode.serving limit)), w') → p ≡ (ok (Mode.serving limit), w')
      as_pair (r, v) e = cc

  configured-SameRuns :
      (r : Result X.SqlxError LocalConfig) (w w' : State X) (limit : ℕ)
      → run_configured X env r w ≡ (returned (ok (Mode.serving limit)), w')
      → SameRuns X (migrated w) w'.tables
  unfolding run_configured
  configured-SameRuns (err e) w w' limit h = cc
  configured-SameRuns (ok config) w w' limit h =
      logged-SameRuns config (setup_logging X env config) w w' limit h

  -- Take a start of the program that gets to serving, where the sequence of the ids is ahead of the
  -- table of runs after the migrations. The start leaves the runs as the migrations left them. In any
  -- state that the tasks reach from there, any single move leaves every run where it stands, or begins
  -- one run, which was not in the table, or ends one run, which was "running", and changes where no
  -- other run stands; and each run that was in the table after the migrations is the same before and
  -- after the move. The queries may fail at any time.
  pub run_program-LifeStep :
      (config : LocalConfig) (remote_config : RemoteConfig X.json.Json) (limit : ℕ) (w w' : State X)
      {s t : ServingOf X}
      → IsFresh (migrated w)
      → run_program X env w ≡ (returned (ok (Mode.serving limit)), w')
      → Moves X remote_config (begin_serving X config limit w') s
      → Move X remote_config s t
      → (w'.tables.runs ≡ (migrated w).runs)
        × LifeStep (lives s.world.tables.runs) (lives t.world.tables.runs)
        × ((id : ℤ) (run : Run X.json.Json)
            → find_run id (migrated w).runs ≡ some run
            → (find_run id s.world.tables.runs ≡ some run)
              × (find_run id t.world.tables.runs ≡ some run))
  unfolding run_program
  run_program-LifeStep config remote_config limit w w' {s} {t} fresh started moves last =
      let (runs, next) =
        configured-SameRuns (from_file env.content env.from_str) w w' limit started in
      let fresh' : IsFresh w'.tables =
        subst (λ n. All (IsOld n) w'.tables.runs) (sym next)
          (subst (All (IsOld (migrated w).next_run_id)) (sym runs) fresh) in
      (
        runs,
        Moves-LifeStep X remote_config fresh' refl moves last,
        λ id run found.
            let old = ap (find_run id) runs ∙ found in
            (
              find_run-old X remote_config id run fresh' refl old moves,
              find_run-old X remote_config id run fresh' refl old (then_move moves last),
            ),
      )
