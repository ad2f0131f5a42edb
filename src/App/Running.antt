-- ===== src/App/Running.antt =====
-- What a run of the service opens, closes and returns.
use pg_gobench.Base.{
  ℕ, ◌+◌, is_empty, ◌≡◌, ◌≢◌, refl, ◌↔◌, arith, Bool, true, false, ◌||◌, Option, none, some, List,
  [], ◌∷◌, ◌++◌, if◌then◌else◌, ℤ, Text, codes, Error, Sentinel, sentinel, server_closed, errors_is,
  Result, ok, err, >>=-ok, labelled, labelled-ok, refuse_if-passes,
}
use pg_gobench.Config.{Source}
use pg_gobench.Config.Sources.{Document, load}
use pg_gobench.Config.Parsed.{IsValidSource, load-IsValidSource}
use pg_gobench.App.{
  default_addr, has_some, Flags, ServiceConfig, parse_config, Action, opens_database,
  closes_database, closes_listener, serves, Ending, cancelled, served, Service, serve_result,
  await_end, startup_failed, serve_from, listen_from, close_with, run_from, run_service, exits,
  write_fatal, exit_of, run_main,
}

-- Serve has ended as it should: by itself without an error, or since the server was closed.
abbrev pub IsCleanServe : Option Error → Type 0
IsCleanServe none = Unit
IsCleanServe (some e) = errors_is server_closed e ≡ true

abbrev pub IsCleanEnding : Ending → Type 0
IsCleanEnding (cancelled shutdown serving) = (shutdown ≡ none) × IsCleanServe serving
IsCleanEnding (served serving) = IsCleanServe serving

await_end-clean_iff : (e : Ending) → ((await_end e).1 ≡ none) ↔ IsCleanEnding e
unfolding await_end serve_result
await_end-clean_iff (cancelled none none) = ground arith
await_end-clean_iff (cancelled none (some e)) = ground arith
await_end-clean_iff (cancelled (some e) s) = ground arith
await_end-clean_iff (served none) = ground arith
await_end-clean_iff (served (some e)) = ground arith

-- Run returns nil exactly when the database is opened and closed without an error, the address can
-- be listened on, the startup message is written, and the service ends well: Serve returns only
-- since the server is closed, and after a cancellation Shutdown succeeds too.
pub run_service-succeeds_iff :
    (s : Service)
    → ((run_service s).1 ≡ none) ↔ (
        (s.open_error ≡ none)
        × (s.listen_error ≡ none)
        × (s.startup_error ≡ none)
        × (s.close_error ≡ none)
        × IsCleanEnding s.ending)
unfolding run_service run_from listen_from serve_from startup_failed close_with
run_service-succeeds_iff s = ground (arith, await_end-clean_iff s.ending)

abbrev is_serves : Action → Bool
is_serves serves = true
is_serves _ = false

abbrev is_close_of_listener : Action → Bool
is_close_of_listener closes_listener = true
is_close_of_listener _ = false

abbrev is_close_of_database : Action → Bool
is_close_of_database closes_database = true
is_close_of_database _ = false

abbrev pub count_of : (Action → Bool) → List Action → ℕ
count_of test [] = 0
count_of test (a ∷ rest) = (if test a then 1 else 0) + count_of test rest

-- What becomes of the listener, and that the body leaves the database alone.
abbrev pub HandsOn : Option Error → List Action → Type 0
HandsOn none actions =
    (count_of is_serves actions + count_of is_close_of_listener actions ≡ 1)
    × (count_of is_close_of_database actions ≡ 0)
HandsOn (some e) actions =
    (count_of is_serves actions + count_of is_close_of_listener actions ≡ 0)
    × (count_of is_close_of_database actions ≡ 0)

await_end-HandsOn : (e : Ending) (x : Error) → HandsOn (some x) (await_end e).0
unfolding await_end
await_end-HandsOn (cancelled none s) x = (refl, refl)
await_end-HandsOn (cancelled (some e) s) x = (refl, refl)
await_end-HandsOn (served s) x = (refl, refl)

serve_from-HandsOn : (u : Option Error) (s : Service) → HandsOn none (serve_from u s).0
unfolding serve_from
serve_from-HandsOn (some e) s = (refl, refl)
serve_from-HandsOn none s =
    let (a, b) = await_end-HandsOn s.ending (sentinel server_closed) in
    (omega (arith, a), omega (arith, b))

listen_from-HandsOn : (l : Option Error) (s : Service) → HandsOn l (listen_from l s).0
unfolding listen_from
listen_from-HandsOn (some e) s = (refl, refl)
listen_from-HandsOn none s =
    let (a, b) = serve_from-HandsOn s.startup_error s in (omega (arith, a), omega (arith, b))

-- Once the database is open, its close is the last call and the only one of its kind; between the
-- two a listener that was made is served on or closed, one of the two and once.
pub run_service-closes :
    (s : Service)
    → s.open_error ≡ none
    → (body : List Action) × ((run_service s).0 ≡ opens_database ∷ body ++ closes_database ∷ [])
      × HandsOn s.listen_error body
unfolding run_service run_from
run_service-closes s o =
    ((listen_from s.listen_error s).0, rw (o, run_from) refl, listen_from-HandsOn s.listen_error s)

-- The error, if there is one, is or wraps the sentinel.
abbrev pub reports : Sentinel → Option Error → Bool
reports k none = false
reports k (some e) = errors_is k e

startup_failed-reports :
    (k : Sentinel) (e : Error) (c : Option Error)
    → reports k (startup_failed e c) ≡ (errors_is k e || reports k c)
unfolding startup_failed errors_is
startup_failed-reports k e none = ground arith
startup_failed-reports k e (some c) = refl

close_with-reports :
    (k : Sentinel) (c e : Option Error) → reports k (close_with c e) ≡ (reports k e || reports k c)
unfolding close_with errors_is
close_with-reports k none none = refl
close_with-reports k none (some e) = ground arith
close_with-reports k (some c) none = refl
close_with-reports k (some c) (some e) = refl

-- A wrapped error is reported when the error is.
listen_from-reports :
    (k : Sentinel) (l : Option Error) (s : Service)
    → reports k l ≡ true
    → reports k (listen_from l s).1 ≡ true
unfolding listen_from errors_is
listen_from-reports k none s h = ground (arith, h)
listen_from-reports k (some e) s h = h

serve_from-reports :
    (k : Sentinel) (u : Option Error) (s : Service)
    → u ≢ none
    → (reports k u || reports k s.close_listener_error) ≡ true
    → reports k (serve_from u s).1 ≡ true
unfolding serve_from
serve_from-reports k none s n h = ground (arith, n)
serve_from-reports k (some e) s n h = rw (startup_failed-reports k e s.close_listener_error) h

-- Once the database is open, the error of Run is or wraps every sentinel that the error of closing
-- the database is or wraps; and likewise for a failed listen, a startup message that cannot be
-- written, and a listener that cannot be closed behind such a message.
pub run_service-reports :
    (k : Sentinel) (s : Service)
    → s.open_error ≡ none
    → (reports k s.close_error ≡ true → reports k (run_service s).1 ≡ true)
      × (reports k s.listen_error ≡ true → reports k (run_service s).1 ≡ true)
      × (s.listen_error ≡ none
          → reports k s.startup_error ≡ true
          → reports k (run_service s).1 ≡ true)
      × (s.listen_error ≡ none
          → s.startup_error ≢ none
          → reports k s.close_listener_error ≡ true
          → reports k (run_service s).1 ≡ true)
unfolding run_service run_from listen_from serve_from errors_is
run_service-reports k s o = ground (
  arith,
  o,
  close_with-reports k s.close_error (listen_from s.listen_error s).1,
  listen_from-reports k s.listen_error s,
  serve_from-reports k s.startup_error s,
)

exit_of-zero : (r w : Option Error) → exit_of r w ≡ exits 0 → r ≡ none
unfolding exit_of write_fatal
exit_of-zero none w h = refl
exit_of-zero (some e) none h = cc
exit_of-zero (some e) (some x) h = cc

run_main-zero :
    (r : Result ServiceConfig) (service : ServiceConfig → Service) (stderr_error : Option Error)
    → run_main r service stderr_error ≡ exits 0
    → (c : ServiceConfig) × (r ≡ ok c) × ((run_service (service c)).1 ≡ none)
unfolding run_main write_fatal
run_main-zero (ok c) service stderr_error h = (c, refl, exit_of-zero _ stderr_error h)
run_main-zero (err e) service none h = cc
run_main-zero (err e) service (some x) h = cc

is_empty-false : (t : Text) → is_empty t ≡ false → t ≢ []
is_empty-false [] h = cc
is_empty-false (c ∷ t) h = λ e. cc

-- The address is the flag's, and the source is what the file holds.
parse_config-ok :
    (parse_flags : Text → List Text → Result Flags) (load_file : Text → Result Source)
    (args : List Text) (c : ServiceConfig)
    → parse_config parse_flags load_file args ≡ ok c
    → (c.addr ≢ []) × (path : Text) × (load_file path ≡ ok c.source)
unfolding parse_config
parse_config-ok parse_flags load_file args c h =
    let (flags, _, h₁) =
      >>=-ok (labelled (codes "parse flags") (parse_flags default_addr args)) _ h in
    let (_, h₂) =
      refuse_if-passes (has_some flags.positional) (codes "unexpected positional arguments") _ h₁ in
    let (g, h₃) = refuse_if-passes (is_empty flags.addr) (codes "addr must not be empty") _ h₂ in
    let (_, h₄) =
      refuse_if-passes (is_empty flags.config_path) (codes "config must not be empty") _ h₃ in
    let (s, l, h₅) = >>=-ok (labelled (codes "load config") (load_file flags.config_path)) _ h₄ in
    (
      λ z. is_empty-false flags.addr g (ground (arith, h₅, z)),
      flags.config_path,
      ground (arith, h₅, l, labelled-ok (codes "load config") (load_file flags.config_path) l),
    )

-- The process exits by 0 only when the flags name a configuration file that yields a valid source,
-- and the service ran on it without an error.
pub run_main-succeeds :
    (env : Text → Option Text) (read_file : Text → Result Text) (atoi : Text → Result ℤ)
    (decode : Text → Result Document) (parse_flags : Text → List Text → Result Flags)
    (service : ServiceConfig → Service) (stderr_error : Option Error) (args : List Text)
    → run_main (parse_config parse_flags (load env read_file atoi decode) args) service stderr_error
      ≡ exits 0
    → (c : ServiceConfig) × (parse_config parse_flags (load env read_file atoi decode) args ≡ ok c)
      × (c.addr ≢ [])
      × IsValidSource c.source
      × ((run_service (service c)).1 ≡ none)
run_main-succeeds env read_file atoi decode parse_flags service stderr_error args h =
    let (c, p, r) = run_main-zero _ service stderr_error h in
    let (a, path, l) = parse_config-ok parse_flags (load env read_file atoi decode) args c p in
    (c, p, a, load-IsValidSource env read_file atoi decode path c.source l, r)
