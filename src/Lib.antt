-- ===== src/Lib.antt =====
-- pg_gobench is a service that runs PostgreSQL benchmarks on request. An HTTP server takes
-- requests to start, alter and stop a run; a coordinator lets one run at a time be under way and
-- keeps its state and last sample; a runner makes the dataset and starts workers that carry out
-- the operations of a workload at a target rate and record their latencies; the results and the
-- metrics are read from the coordinator. This library models these parts and states what makes
-- them correct.
--
-- Base: what the other files share. Go's int is an integer, wrapped to 64 bits where the code
--   does arithmetic that could leave them; uint64 is a number modulo 2 ^ 64. Strings that are cut
--   or searched are lists of bytes. An error is a tree of messages, wraps, joins and sentinels,
--   with errors.Is as a function on it. float64 is a parameter: a type with the operations used.
--   Base.Decimal writes and reads numbers in base ten.
-- Benchmark (internal/benchmark): scale.go in Benchmark.Scale, options.go in Benchmark.Options.
--   The struct StartOptions is a record, DecodeStartOptions is decode_start_options on what the
--   JSON decoder yields, validateStartOptions a chain of checks in the order of the code,
--   ApplyAlter apply_alter.
-- Run (internal/benchmarkrun): coordinator.go and results.go in Run.Coordinator, sample.go in
--   Run.Sample, compactErrorText in Run.ErrorText. A section of a method under the mutex is one
--   function from state to state: Start is begin_start followed by finish_start or
--   finish_start_failure, the goroutine of waitForRun is wait_for_run. Run.Coordinator.System
--   puts the calls inside the runner and the waiting goroutines next to the coordinator; a list
--   of its events is an interleaving of any number of them. WritePrometheus of metrics.go is
--   write_prometheus in Run.Metrics, on a writer that may refuse any of its chunks.
-- Runner (internal/benchrunner): Start and setupStatements of runner.go in Runner.Launch,
--   stats.go in Runner.Histogram and Runner.Stats, the activeRun of runtime.go in
--   Runner.ActiveRun, its realPacingGate in Runner.Pacing, the workload files and
--   operation_error.go in Runner.Workload. The map of workers is the list of its keys in
--   ascending order. A worker's loop is worker_round, one round at a time; RunEvent lists what
--   can happen to a run, in any order. The gate is a machine whose events are calls, ticks and
--   cancellations. A plan is its counters, and RunOnce is run_once: the plan after it, and the
--   operation with the commands it has sent to the database in order; these stand in
--   Runner.Workload.Plans.
-- Server (internal/httpserver): server.go. The interface Benchmark is a record of functions on a
--   state, and a handler maps a request and a state to a state and a response. Server.Laws has the
--   laws that the handlers rely on; Server.Coordinated fills the interface by the coordinator, for
--   requests that come one after the other, Server.Sessions relates these to the events of
--   Run.Coordinator.System, and Server.Runs puts the runner behind it, next to the statements that
--   the database has been sent.
-- Config (internal/config): config.go, a node of the YAML document being a scalar, a mapping or
--   another kind; the field functions in Config, credentials, parseSource, parseConfigDocument and
--   Load in Config.Sources.
-- Database (internal/database): database.go. newConnConfig is new_conn_config, buildTLSConfig
--   build_tls_config, loadRootCAs load_root_cas; what these call of pgx, crypto/tls, crypto/x509,
--   encoding/pem and os is the record Libraries.
-- App (internal/app and cmd/pg_gobench): ParseConfig is parse_config, Run is run_service, the calls
--   that it makes on the database handle, the listener and the server with the error it returns,
--   for every answer of theirs; run of main.go is run_main.
--
-- Fuel: the loop that starts workers has as many rounds as the target, and each round adds one;
--   the loops that make the latency bounds have more fuel than rounds; the loop over PEM blocks has
--   one round more than the file has bytes, and a block is taken off each time; a number is written
--   with more rounds than it has digits.
-- Time is a number that each call is given; nothing says that it grows.
--
-- Not modelled: the page under examples, the real clock and the default factories of the runner,
--   and the texts of SQL statements, whose order and arguments are modelled. With the texts goes
--   that a fill inserts rows into an empty table alone, and how the rows of a query are read.
--   Content types, logged write errors, the notes and times of history rows and values that a
--   message quotes are left out. encoding/json, yaml, http.ServeMux, database/sql, pgx, flag, net and
--   the crypto packages are represented by what they answer, in arguments of the functions that use
--   them.
pub mod Base
pub mod Benchmark
pub mod Run
pub mod Runner
pub mod Server
pub mod Config
pub mod Database
pub mod App
