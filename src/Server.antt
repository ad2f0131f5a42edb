-- ===== src/Server.antt =====
-- internal/httpserver/server.go: the routes and their handlers, as functions of the request and of
-- the state behind the Benchmark interface. What encoding/json reads from a body is part of the
-- request; http.ServeMux calls the handler of the exact path, and what it answers for a path without
-- a route is a parameter. Content types and failed writes, which are only logged, are left out.
pub mod Routing
pub mod Laws
pub mod Coordinated
pub mod Sessions
pub mod Runs
mod Examples
use pg_gobench.Base.{
  ℕ, ◌≡◌, Bool, true, false, not, ◌||◌, Option, none, some, List, [], ◌∷◌, ◌++◌, if◌then◌else◌,
  String, str_eq, Text, codes, Error, plain, run_active, run_not_running, errors_is, message,
  Result, ok, err,
}
use pg_gobench.Benchmark.Options.{StartOptions, AlterOptions}

abbrev pub method_get : String
method_get = "GET"

abbrev pub method_post : String
method_post = "POST"

abbrev pub method_options : String
method_options = "OPTIONS"

-- The interface Benchmark over a state: each call answers and changes the state. A context goes to
-- Start by its error.
pub record Benchmark (S St Re Me : Type 0) : Type 0 where
  pub start : Option Error → StartOptions → S → S × St × Option Error
  pub alter : AlterOptions → S → S × St × Option Error
  pub stop : S → S × St × Option Error
  pub state : S → St
  pub results : S → Re
  pub metrics : S → Me

pub data Payload (St Re Me : Type 0) : Type 0 where
  empty healthy : Payload St Re Me
  failure : Text → Payload St Re Me
  state_payload : St → Payload St Re Me
  results_payload : Re → Payload St Re Me
  metrics_payload : Me → Payload St Re Me

-- `allow` is the header Allow, `browser` the header Access-Control-Allow-Methods.
pub record Response (St Re Me : Type 0) : Type 0 where
  pub status : ℕ
  pub allow : List String
  pub browser : List String
  pub payload : Payload St Re Me

-- `ready` is what the readiness probe answers, `start_options` and `alter_options` what
-- DecodeStartOptions and DecodeAlterOptions make of the body.
pub record Request : Type 0 where
  pub path : String
  pub method : String
  pub context : Option Error
  pub ready : Option Error
  pub start_options : Result StartOptions
  pub alter_options : Result AlterOptions

unfoldable pub status_for_benchmark_error : Error → ℕ
status_for_benchmark_error e =
    if errors_is run_active e || errors_is run_not_running e then 409 else 500

pub data Route : Type 0 where
  healthz readyz benchmark benchmark_results benchmark_start benchmark_alter benchmark_stop
        metrics :
      Route

abbrev pub route_method : Route → String
route_method benchmark_start = method_post
route_method benchmark_alter = method_post
route_method benchmark_stop = method_post
route_method _ = method_get

abbrev pub routes : List (String × Route)
routes =
    ("/healthz", healthz)
    ∷ ("/readyz", readyz)
    ∷ ("/benchmark", benchmark)
    ∷ ("/benchmark/results", benchmark_results)
    ∷ ("/benchmark/start", benchmark_start)
    ∷ ("/benchmark/alter", benchmark_alter)
    ∷ ("/benchmark/stop", benchmark_stop)
    ∷ ("/metrics", metrics)
    ∷ []

pub find_route : String → List (String × Route) → Option Route
find_route path [] = none
find_route path ((p, route) ∷ rest) =
    let later = find_route path rest in if str_eq path p then some route else later

abbrev pub allowed_methods_list : String → List String
allowed_methods_list method = method ∷ method_options ∷ []

module _ {St Re Me : Type 0} where
  abbrev pub write_json : ℕ → Payload St Re Me → Response St Re Me
  write_json status payload = record {
    status = status;
    allow = [];
    browser = [];
    payload = payload;
  }

  abbrev pub write_error : ℕ → Error → Response St Re Me
  write_error status e = write_json status (failure (message e))

  -- What allowMethod writes for another method than the one wanted.
  abbrev pub not_allowed : String → String → Response St Re Me
  not_allowed method want =
      record (write_error 405 (plain (codes "method " ++ (codes method ++ codes " not allowed")))) {
        allow = want ∷ [];
      }

  -- `ready == nil` is none in the outer option.
  handle_ready : Option (Option Error) → Response St Re Me
  handle_ready none = write_error 500 (plain (codes "readiness probe unavailable"))
  handle_ready (some (some e)) = write_error 503 e
  handle_ready (some none) = write_json 200 healthy

module _ {S St Re Me : Type 0} where
  -- The end of the three handlers that change the benchmark.
  answer : S × St × Option Error → S × Response St Re Me
  answer (s, state, some e) = (s, write_error (status_for_benchmark_error e) e)
  answer (s, state, none) = (s, write_json 200 (state_payload state))

  pub handle_start : Benchmark S St Re Me → Request → S → S × Response St Re Me
  unfolding answer
  handle_start b r s = elim r.start_options [
    | err e ↦ (s, write_error 400 e)
    | ok options ↦ answer (b.start r.context options s)
  ]

  handle_alter : Benchmark S St Re Me → Request → S → S × Response St Re Me
  unfolding answer
  handle_alter b r s = elim r.alter_options [
    | err e ↦ (s, write_error 400 e)
    | ok options ↦ answer (b.alter options s)
  ]

  -- What the handler of a route does once the method is right and there is a benchmark.
  handle_benchmark : Route → Benchmark S St Re Me → Request → S → S × Response St Re Me
  unfolding handle_start handle_alter answer
  handle_benchmark benchmark b r s = (s, write_json 200 (state_payload (b.state s)))
  handle_benchmark benchmark_results b r s = (s, write_json 200 (results_payload (b.results s)))
  handle_benchmark benchmark_start b r s = handle_start b r s
  handle_benchmark benchmark_alter b r s = handle_alter b r s
  handle_benchmark benchmark_stop b r s = answer (b.stop s)
  handle_benchmark metrics b r s = (s, write_json 200 (metrics_payload (b.metrics s)))
  handle_benchmark _ b r s = (s, write_json 200 healthy)

  -- The handlers. A benchmark that is nil is none; so is a probe that is nil.
  handle : Option (Benchmark S St Re Me) → Bool → Route → Request → S → S × Response St Re Me
  unfolding handle_ready handle_benchmark
  handle deps probe healthz r s = (s, write_json 200 healthy)
  handle deps probe readyz r s = (s, handle_ready (if probe then some r.ready else none))
  handle (some b) probe route r s = handle_benchmark route b r s
  handle none probe route r s =
      (s, write_error 500 (plain (codes "benchmark controller unavailable")))

  abbrev pub with_browser : String → S × Response St Re Me → S × Response St Re Me
  with_browser method (s, a) = (s, record a { browser = allowed_methods_list method })

  -- newBrowserCompatibleHandler for a path with a route.
  unfoldable pub serve_route :
      Option (Benchmark S St Re Me) → Bool → Route → Request → S → S × Response St Re Me
  unfolding handle
  serve_route deps probe route r s = with_browser (route_method route) (
      if str_eq r.method method_options
      then (
        s,
        record {
          status = 204;
          allow = allowed_methods_list (route_method route);
          browser = [];
          payload = empty;
        },
      )
      else if str_eq r.method (route_method route)
      then handle deps probe route r s
      else (s, not_allowed r.method (route_method route)))

  dispatch :
      (Request → Response St Re Me)
      → Option (Benchmark S St Re Me)
      → Bool
      → Option Route
      → Request
      → S
      → S × Response St Re Me
  unfolding serve_route
  dispatch other deps probe none r s = (s, other r)
  dispatch other deps probe (some route) r s = serve_route deps probe route r s

  -- The handler of the server. `other` answers for a path without a route.
  unfoldable pub serve :
      (Request → Response St Re Me)
      → Option (Benchmark S St Re Me)
      → Bool
      → Request
      → S
      → S × Response St Re Me
  unfolding find_route dispatch
  serve other deps probe r s = dispatch other deps probe (find_route r.path routes) r s
