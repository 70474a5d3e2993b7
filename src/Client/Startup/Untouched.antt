-- ===== src/Client/Startup/Untouched.antt =====
-- When a start of the program leaves everything alone.
use rbackup.Base.{◌≡◌, refl, ◌≢◌, String, arith, ◌⊎◌, inl, inr}
use rbackup.Error.{Result, ok, err, AppError, connection_failed, and_then}
use rbackup.Config.Local.{LocalConfig, mapped, from_file, database_url}
use rbackup.Config.Local.Validation.{IsValid, from_file_iff}
use rbackup.External.{Externals}
use rbackup.Database.World.{State, Action, resume}
use rbackup.Client.{Mode}
use rbackup.Client.Startup.{
  Surroundings, Outcome, returned, panicked, setup_logging, create_pool, run_connected, run_logged,
  run_configured, run_program, exit_code,
}

module _ (X : Externals) (env : Surroundings X.json.Json X.SqlxError) where
  -- The library accepts the connection string of the configuration, and connects.
  abbrev pub IsConnected : LocalConfig → Type 0
  IsConnected config =
      (options : env.ConnectOptions) × (env.parse_options (database_url config) ≡ inr options)
      × (env.connect_with options ≡ inr tt)

  -- The file holds a configuration, which is valid and connects.
  abbrev pub IsReady : Type 0
  IsReady =
      (config : LocalConfig) × (text : String) × (env.content ≡ inr text)
      × (env.from_str text ≡ inr config)
      × IsValid config
      × IsConnected config

  pool_made :
      (config : LocalConfig) (connected : X.SqlxError ⊎ Unit {0}) (options : env.ConnectOptions)
      → env.parse_options (database_url config) ≡ inr options
      → env.connect_with options ≡ connected
      → ((e : AppError X.SqlxError) × (mapped connected
              (λ e'. AppError.database (connection_failed e'))
            ≡ err e))
        ⊎ IsConnected config
  pool_made config (inl e) options parsed h = inl (AppError.database (connection_failed e), refl)
  pool_made config (inr tt) options parsed h = inr (options, parsed, h)

  pool_parsed :
      (config : LocalConfig) (parsed : X.SqlxError ⊎ env.ConnectOptions)
      → env.parse_options (database_url config) ≡ parsed
      → ((e : AppError X.SqlxError) × (and_then
              (mapped parsed (λ e'. AppError.database (connection_failed e')))
              (λ options.
                mapped (env.connect_with options) (λ e'. AppError.database (connection_failed e')))
            ≡ err e))
        ⊎ IsConnected config
  pool_parsed config (inl e) h = inl (AppError.database (connection_failed e), refl)
  pool_parsed config (inr options) h = pool_made config (env.connect_with options) options h refl

  -- The database, the clocks and the count of queries and processes are as they were, and the program
  -- does not say that it succeeded.
  abbrev pub IsUntouched :
      State X → Outcome (Result X.SqlxError (Mode X.json.Json)) × State X → Type 0
  IsUntouched w (outcome, w') = (w' ≡ w) × (exit_code outcome ≢ 0)

  failed-IsUntouched :
      (r : Result X.SqlxError (Unit {0})) (e : AppError X.SqlxError)
      (f : Unit {0} → Action X (Mode X.json.Json)) (w : State X)
      → r ≡ err e
      → let (r', w') = resume (r, w) f in IsUntouched w (returned r', w')
  unfolding exit_code
  failed-IsUntouched (err e') e f w h = (refl, λ z. omega (arith, z))
  failed-IsUntouched (ok a) e f w h = cc

  logged_cases :
      (config : LocalConfig) (outcome : Outcome (Result X.SqlxError (Unit {0}))) (w : State X)
      → IsUntouched w (run_logged X env config outcome w) ⊎ IsConnected config
  unfolding run_logged run_connected create_pool exit_code
  logged_cases config (panicked message) w = inl (refl, λ z. omega (arith, z))
  logged_cases config (returned (err e)) w = inl (refl, λ z. omega (arith, z))
  logged_cases config (returned (ok tt)) w =
      elim (pool_parsed config (env.parse_options (database_url config)) refl) [
        | inl (e, failed) ↦ inl (failed-IsUntouched _ e _ w failed)
        | inr connected ↦ inr connected
      ]

  configured_cases :
      (r : Result X.SqlxError LocalConfig) (w : State X)
      → from_file env.content env.from_str ≡ r
      → IsUntouched w (run_configured X env r w) ⊎ IsReady
  unfolding run_configured exit_code
  configured_cases (err e) w h = inl (refl, λ z. omega (arith, z))
  configured_cases (ok config) w h =
      let (text, read, parsed, valid) = (from_file_iff env.content env.from_str config).0 h in
      elim (logged_cases config (setup_logging X env config) w) [
        | inl untouched ↦ inl untouched
        | inr connected ↦ inr (config, text, read, parsed, valid, connected)
      ]

  -- A start of the program makes no query, runs no process and changes nothing in the database, and
  -- does not end with exit code 0, unless its configuration file could be read and parsed, the
  -- configuration in it is valid, and the connection that it describes was made.
  pub run_program-IsUntouched : (w : State X) → IsUntouched w (run_program X env w) ⊎ IsReady
  unfolding run_program
  run_program-IsUntouched w = configured_cases (from_file env.content env.from_str) w refl
