-- ===== src/App.antt =====
-- internal/app/app.go and cmd/pg_gobench/main.go. The flag package, the database handle, the listener
-- and the HTTP server are represented by what they answer; a run of the service is the list of the
-- calls that it makes on them, and its error. How a run goes on once it serves is its `Ending`.
pub mod Running
mod Examples
use pg_gobench.Base.{
  is_empty, ℕ, ◌≡◌, Bool, true, false, not, Option, none, some, List, [], ◌∷◌, ◌++◌, if◌then◌else◌,
  ℤ, Text, codes, Error, plain, wrap, server_closed, errors_is, Result, ok, err, ◌>>=◌, ◌>>◌,
  refuse_if, labelled,
}
use pg_gobench.Config.{Source}

abbrev pub default_addr : Text
default_addr = codes "127.0.0.1:8080"

-- What flag.FlagSet yields: the two flags and the arguments behind them.
pub record Flags : Type 0 where
  pub addr : Text
  pub config_path : Text
  pub positional : List Text

-- The package's Config, under another name than that of internal/config.
pub record ServiceConfig : Type 0 where
  pub addr : Text
  pub source : Source

abbrev pub has_some : List Text → Bool
has_some [] = false
has_some (t ∷ ts) = true

-- `parse_flags` is the flag set at the default address, `load` is config.Load.
unfoldable pub parse_config :
    (Text → List Text → Result Flags) → (Text → Result Source) → List Text → Result ServiceConfig
parse_config parse_flags load args = do
  flags ← labelled (codes "parse flags") (parse_flags default_addr args)
  refuse_if (has_some flags.positional) (codes "unexpected positional arguments")
  refuse_if (is_empty flags.addr) (codes "addr must not be empty")
  refuse_if (is_empty flags.config_path) (codes "config must not be empty")
  source ← labelled (codes "load config") (load flags.config_path)
  ok (record { addr = flags.addr; source = source })

pub data Action : Type 0 where
  opens_database closes_database listens writes_startup closes_listener serves shuts_down : Action

-- How the select of Run is left: the context is done, with the errors of Shutdown and of Serve; or
-- Serve has returned by itself.
pub data Ending : Type 0 where
  cancelled : Option Error → Option Error → Ending
  served : Option Error → Ending

-- What the resources answer.
pub record Service : Type 0 where
  pub open_error : Option Error
  pub close_error : Option Error
  pub listen_error : Option Error
  pub startup_error : Option Error
  pub close_listener_error : Option Error
  pub ending : Ending

abbrev pub Outcome : Type 0
Outcome = List Action × Option Error

-- What the goroutine of Serve sends.
pub serve_result : Option Error → Option Error
serve_result none = none
serve_result (some e) =
    if errors_is server_closed e then none else some (wrap (codes "serve HTTP server") e)

await_end : Ending → Outcome
unfolding serve_result
await_end (cancelled (some e) serving) =
    (shuts_down ∷ [], some (wrap (codes "shutdown HTTP server") e))
await_end (cancelled none serving) = (shuts_down ∷ [], serve_result serving)
await_end (served serving) = ([], serve_result serving)

startup_failed : Error → Option Error → Option Error
startup_failed e none = some (wrap (codes "write startup message") e)
startup_failed e (some c) =
    some (Error.joined (wrap (codes "write startup message") e) (wrap (codes "close listener") c))

serve_from : Option Error → Service → Outcome
unfolding await_end startup_failed
serve_from (some e) s =
    (writes_startup ∷ closes_listener ∷ [], startup_failed e s.close_listener_error)
serve_from none s = (writes_startup ∷ serves ∷ (await_end s.ending).0, (await_end s.ending).1)

-- The body of Run behind the deferred call.
listen_from : Option Error → Service → Outcome
unfolding serve_from
listen_from (some e) s = (listens ∷ [], some (wrap (codes "listen") e))
listen_from none s = (listens ∷ (serve_from s.startup_error s).0, (serve_from s.startup_error s).1)

-- The deferred function, on the error that Run is about to return.
close_with : Option Error → Option Error → Option Error
close_with none run_error = run_error
close_with (some c) none = some (wrap (codes "close database") c)
close_with (some c) (some e) = some (Error.joined e (wrap (codes "close database") c))

run_from : Option Error → Service → Outcome
unfolding listen_from close_with
run_from (some e) s = (opens_database ∷ [], some (wrap (codes "open database") e))
run_from none s = (
  opens_database ∷ (listen_from s.listen_error s).0 ++ closes_database ∷ [],
  close_with s.close_error (listen_from s.listen_error s).1,
)

unfoldable pub run_service : Service → Outcome
unfolding run_from
run_service s = run_from s.open_error s

-- How the process ends: by os.Exit, or by the panic of writeFatal.
pub data Exit : Type 0 where
  exits : ℕ → Exit
  panics : Error → Exit

write_fatal : Option Error → ℕ → Exit
write_fatal none code = exits code
write_fatal (some e) code = panics (wrap (codes "write fatal message") e)

exit_of : Option Error → Option Error → Exit
unfolding write_fatal
exit_of none stderr_error = exits 0
exit_of (some e) stderr_error = write_fatal stderr_error 1

-- run of main.go: `service` is what the resources answer for a configuration, and the last argument
-- what a write to stderr answers.
unfoldable pub run_main : Result ServiceConfig → (ServiceConfig → Service) → Option Error → Exit
unfolding exit_of write_fatal run_service
run_main (err e) service stderr_error = write_fatal stderr_error 2
run_main (ok c) service stderr_error = exit_of (run_service (service c)).1 stderr_error
