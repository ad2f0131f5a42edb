-- ===== src/Server/Examples.antt =====
-- Requests to a server over the coordinator, with a runner that fails and a read-only database.
use pg_gobench.Base.{
  List, ◌∷◌, false, pos, eof, arith, eq_iff, pos_part, ltb, ℕ, ◌≡◌, refl, true, Option, none, some,
  [], codes, Error, Floats, sentinel, err, ok, plain, errors_is, str_eq, if◌then◌else◌,
}
use pg_gobench.Benchmark.Options.{StartOptions, decode_start_options}
use pg_gobench.Benchmark.Options.Decoding.{payload_of, decode_start_options-payload_of}
use pg_gobench.Benchmark.Options.Validation.{IsValidStart}
use pg_gobench.Runner.Launch.{Statement, create_schema, create_table, history}
use pg_gobench.Runner.Workload.Plans.{Plan}
use pg_gobench.Server.Runs.{IsOrdinaryDatabase, IsOutcome, recorded, serve-start_runs}
use pg_gobench.Run.Coordinator.{Coordinator, State, Results, new, fresh_state, zero_options}
use pg_gobench.Server.{Response, Request, serve, empty, status_for_benchmark_error}
use pg_gobench.Run.Coordinator.System.{System, start, launched, initial, step, run}
use pg_gobench.Server.Sessions.{Leads, events_of, serve-Leads}
use pg_gobench.Server.Coordinated.{
  World, IsOrdinary, coordinated, IsStartAnswer, serve-client_error_keeps, serve-start_outcomes,
}
use pg_gobench.Run.Sample.{MetricsSnapshot, zero_sample}

abbrev get_metrics : Request
get_metrics = record {
  path = "/metrics";
  method = "GET";
  context = none;
  ready = none;
  start_options = err (plain (codes "EOF"));
  alter_options = err (plain (codes "EOF"));
}

-- Floats as whole numbers.
abbrev whole : Floats
whole = record {
  F = ℕ;
  zero = 0;
  is_positive = λ x. ltb 0 x;
  of_uint64 = λ x. x;
  of_int64 = pos_part;
  mul = λ x y. x;
  div = λ x y. x;
  ceil = λ x. x;
  to_uint64 = λ x. x;
  seconds = pos_part;
}

abbrev busy : Coordinator ℕ ℕ ℕ
busy = record (new whole) { state = fresh_state zero_options; cancel = some 1; run_id = 1 }

-- A runner that starts the run 7 for the read profile, and else fails.
abbrev world : World ℕ ℕ ℕ
world = record {
  launch = λ o. if str_eq o.profile "read" then ok 7 else err (plain (codes "unsupported profile"));
  alter_answer = ok tt;
  live = zero_sample whole;
  now = 100;
}

world-IsOrdinary : IsOrdinary whole world
unfolding status_for_benchmark_error errors_is
world-IsOrdinary o e h = ground (arith, h)

abbrev post_start : Request
post_start = record get_metrics {
  path = "/benchmark/start";
  method = "POST";
  start_options = ok zero_options;
}

abbrev no_route : Request → Response (State ℕ) (Results ℕ ℕ) (MetricsSnapshot ℕ)
no_route r = record { status = 404; allow = []; browser = []; payload = empty }

serve-client_error_keeps_example :
    (serve no_route (some (coordinated whole world)) true post_start busy).0 ≡ busy
serve-client_error_keeps_example =
    serve-client_error_keeps whole world no_route true post_start busy world-IsOrdinary (
      ground (
        arith,
        (serve-start_outcomes whole world no_route true post_start zero_options busy
              world-IsOrdinary refl refl refl refl).when_active
            refl,
      ))

serve-start_outcomes_example :
    IsStartAnswer whole world zero_options busy
      (serve no_route (some (coordinated whole world)) true post_start busy).0
      (serve no_route (some (coordinated whole world)) true post_start busy).1.status
serve-start_outcomes_example =
    serve-start_outcomes whole world no_route true post_start zero_options busy world-IsOrdinary
      refl refl refl refl

fresh_start_refused :
    (serve no_route (some (coordinated whole world)) true post_start (new whole)).1.status ≡ 500
unfolding new
fresh_start_refused =
    ((serve-start_outcomes whole world no_route true post_start zero_options (new whole)
        world-IsOrdinary refl refl refl refl).when_failed
      (plain (codes "unsupported profile")) refl refl).0

abbrev lock_run : StartOptions
lock_run = record {
  scale = pos 1;
  clients = pos 2;
  duration_seconds = pos 10;
  warmup_seconds = pos 1;
  reset = false;
  profile = "lock";
  read_percent = none;
  transaction_mix = "";
  target_tps = none;
}

lock_run-IsValidStart : IsValidStart lock_run
lock_run-IsValidStart = ground (arith, eq_iff "lock" "lock")

lock_run_decodes :
    decode_start_options (ok (payload_of lock_run)) (some (sentinel eof)) ≡ ok lock_run
lock_run_decodes =
    decode_start_options-payload_of lock_run lock_run-IsValidStart
      (λ e. ground (arith, eq_iff "lock" "mixed"))

abbrev post_lock_run : Request
post_lock_run = record post_start {
  start_options = decode_start_options (ok (payload_of lock_run)) (some (sentinel eof));
}

-- The history table cannot be made.
abbrev read_only : Statement → Option Error
read_only (create_table history) = some (plain (codes "read-only transaction"))
read_only _ = none

read_only-IsOrdinaryDatabase : IsOrdinaryDatabase read_only
unfolding status_for_benchmark_error errors_is
read_only-IsOrdinaryDatabase (create_table history) e h = ground (arith, h)
read_only-IsOrdinaryDatabase _ e h = absurd (cc)

-- The coordinator at first, on a database to which one statement was sent before.
abbrev at_first : Coordinator ℕ ℕ Plan × List Statement
at_first = (new whole, create_schema ∷ [])

serve-start_runs_example :
    let b = recorded whole {T = ℕ} read_only (zero_sample whole) 100 in
    IsOutcome whole read_only
      (zero_sample whole)
      100
      lock_run
      (new whole)
      (create_schema ∷ [])
      (serve no_route (some b) true post_lock_run at_first).0
      (serve no_route (some b) true post_lock_run at_first).1.status
serve-start_runs_example =
    serve-start_runs whole read_only (zero_sample whole) 100 no_route true post_lock_run lock_run
      (new whole) (create_schema ∷ []) (ok (payload_of lock_run)) (some (sentinel eof))
      read_only-IsOrdinaryDatabase refl refl refl refl lock_run_decodes

-- A start that was asked for otherwise, and whose run is under way.
abbrev under_way : System ℕ ℕ ℕ
under_way = run whole (initial whole) (start none lock_run ∷ launched 0 7 100 ∷ [])

under_way_launching : under_way.launching ≡ []
unfolding run initial step
under_way_launching = refl

serve-Leads_example :
    Leads whole world under_way
      (events_of whole world post_start)
      (serve no_route (some (coordinated whole world)) true post_start under_way.coordinator).0
serve-Leads_example = serve-Leads whole world under_way under_way_launching no_route true post_start
