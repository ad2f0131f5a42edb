-- ===== src/App/Examples.antt =====
-- A run that is cancelled, one that loses its database, and a process that ends well.
use pg_gobench.Base.{
  ◌≡◌, ◌≢◌, refl, ◌++◌, true, none, some, List, [], ◌∷◌, Text, codes, plain, sentinel,
  server_closed, canceled, Result, ok, errors_is,
}
use pg_gobench.Config.Sources.{load}
use pg_gobench.Config.Parsed.{IsValidSource}
use pg_gobench.Config.Fixture.{no_env, files, numbers, parsed, document, config_loaded}
use pg_gobench.App.{
  default_addr, Flags, ServiceConfig, parse_config, Action, opens_database, closes_database,
  listens, writes_startup, closes_listener, serves, shuts_down, cancelled, Service, run_service,
  exits, exit_of, run_main,
}
use pg_gobench.App.Running.{
  reports, HandsOn, run_service-succeeds_iff, run_service-closes, run_service-reports,
  run_main-succeeds,
}

-- The context is done, Shutdown succeeds and Serve returns http.ErrServerClosed.
abbrev interrupted : Service
interrupted = record {
  open_error = none;
  close_error = none;
  listen_error = none;
  startup_error = none;
  close_listener_error = none;
  ending = cancelled none (some (sentinel server_closed));
}

-- Neither the startup message can be written nor the listener closed.
abbrev silenced : Service
silenced = record interrupted {
  startup_error = some (plain (codes "broken pipe"));
  close_listener_error = some (sentinel canceled);
}

interrupted_actions :
    (run_service interrupted).0
    ≡ opens_database ∷ listens ∷ writes_startup ∷ serves ∷ shuts_down ∷ closes_database ∷ []
unfolding run_service
interrupted_actions = refl

silenced_actions :
    (run_service silenced).0
    ≡ opens_database ∷ listens ∷ writes_startup ∷ closes_listener ∷ closes_database ∷ []
unfolding run_service
silenced_actions = refl

run_service-succeeds_iff_example : (run_service interrupted).1 ≡ none
unfolding errors_is
run_service-succeeds_iff_example =
    (run_service-succeeds_iff interrupted).1 (refl, refl, refl, refl, (refl, refl))

run_service-closes_example :
    (body : List Action) × ((run_service silenced).0
      ≡ opens_database ∷ body ++ closes_database ∷ [])
    × HandsOn none body
run_service-closes_example = run_service-closes silenced refl

run_service-reports_example : reports canceled (run_service silenced).1 ≡ true
unfolding errors_is
run_service-reports_example = (run_service-reports canceled silenced refl).3 refl (λ e. cc) refl

abbrev flags_of : Text → List Text → Result Flags
flags_of addr args = ok (record { addr = addr; config_path = codes "config.yaml"; positional = [] })

abbrev configured : ServiceConfig
configured = record { addr = default_addr; source = parsed }

flags_parsed :
    parse_config flags_of (load no_env files numbers (λ bytes. ok document)) [] ≡ ok configured
unfolding parse_config
flags_parsed = rw config_loaded refl

process_succeeds :
    run_main
      (parse_config flags_of (load no_env files numbers (λ bytes. ok document)) [])
      (λ c. interrupted)
      none
    ≡ exits 0
unfolding run_main run_service exit_of errors_is
process_succeeds = rw flags_parsed refl

run_main-succeeds_example :
    (c : ServiceConfig) × (parse_config flags_of
        (load no_env files numbers (λ bytes. ok document))
        []
      ≡ ok c)
    × (c.addr ≢ [])
    × IsValidSource c.source
    × ((run_service interrupted).1 ≡ none)
run_main-succeeds_example =
    run_main-succeeds no_env files numbers (λ bytes. ok document) flags_of (λ c. interrupted) none
      [] process_succeeds
