-- ===== src/Run/Coordinator.antt =====
-- internal/benchmarkrun/coordinator.go and results.go. One function for each section of code that
-- runs under the mutex, which is atomic; what lies between two sections of one call (the runner's
-- Start) and the goroutine of waitForRun belong to `Coordinator.System`. A pointer to a time is an
-- Option; times, runs and floats are types that the model leaves open. What c.now(), c.run.Alter,
-- c.run.Sample and runner.Start return is an argument.
pub mod System
pub mod Lifecycle
pub mod Settling
pub mod Stopping
pub mod Settings
pub mod Reports
pub mod Diagram
mod Examples
use pg_gobench.Base.{
  bytes_eq, is_empty, ℕ, ◌+◌, ◌%◌, ◌≡◌, Bool, true, false, not, ◌&&◌, ◌||◌, Option, none, some,
  List, [], ◌∷◌, pos, ◌==◌, if◌then◌else◌, uint64_mod, Text, codes, Error, plain, sentinel, wrap,
  canceled, run_active, run_not_running, errors_is, message, Result, ok, err, Floats,
}
use pg_gobench.Benchmark.Options.{StartOptions, AlterOptions, apply_alter}
use pg_gobench.Run.ErrorText.{compact_error_text}
use pg_gobench.Run.Sample.{Sample, Stats, MetricsSnapshot, zero_sample, stats_of, metrics_of}

pub data Status : Type 0 where
  idle starting running stopping stopped failed : Status

pub record State (T : Type 0) : Type 0 where
  pub status : Status
  pub options : StartOptions
  pub started_at : Option T
  pub stopped_at : Option T
  pub error : Text

pub record Results (F T : Type 0) : Type 0 where
  pub status : Status
  pub options : StartOptions
  pub started_at : Option T
  pub stopped_at : Option T
  pub error : Text
  pub stats : Stats F

-- `cancel` is the id of the run whose context the function in the field cancels.
pub record Coordinator (F T R : Type 0) : Type 0 where
  pub state : State T
  pub sample : Sample F
  pub run : Option R
  pub cancel : Option ℕ
  pub run_id : ℕ

-- The zero value of StartOptions.
abbrev pub zero_options : StartOptions
zero_options = record {
  scale = pos 0;
  clients = pos 0;
  duration_seconds = pos 0;
  warmup_seconds = pos 0;
  reset = false;
  profile = "";
  read_percent = none;
  transaction_mix = "";
  target_tps = none;
}

-- Starting, running or stopping.
abbrev pub is_active : Status → Bool
is_active starting = true
is_active running = true
is_active stopping = true
is_active _ = false

abbrev pub is_starting : Status → Bool
is_starting starting = true
is_starting _ = false

abbrev pub is_running : Status → Bool
is_running running = true
is_running _ = false

abbrev pub is_stopping : Status → Bool
is_stopping stopping = true
is_stopping _ = false

abbrev pub is_stopped : Status → Bool
is_stopped stopped = true
is_stopped _ = false

abbrev pub is_some {ℓ} : {A : Type ℓ} → Option A → Bool
is_some none = false
is_some (some a) = true

-- What Start does before it calls the runner: it refuses, or takes a run id.
pub data Begin (T : Type 0) : Type 0 where
  refused : State T → Error → Begin T
  begun : ℕ → Begin T

module _ {T : Type 0} where
  -- The first status that a run has, from its options.
  abbrev pub fresh_state : StartOptions → State T
  fresh_state options = record {
    status = starting;
    options = options;
    started_at = none;
    stopped_at = none;
    error = [];
  }

  -- The `if c.state.StartedAt == nil` and `if c.state.Status == StatusStarting` of Start.
  pub mark_started : T → State T → State T
  mark_started now s =
      let timed = record s {
        started_at = if is_some s.started_at then s.started_at else some now;
      } in
      if is_starting s.status then record timed { status = running; error = [] } else timed

  -- What finishStartFailure makes of the state.
  pub mark_start_failed : StartOptions → Error → T → State T → State T
  mark_start_failed options e now s =
      if is_stopping s.status && errors_is canceled e
      then record s { status = stopped; error = []; options = options; stopped_at = some now }
      else record {
        status = failed;
        options = options;
        started_at = none;
        stopped_at = some now;
        error = compact_error_text (message e);
      }

  -- The final switch of waitForRun; `none` is a nil error. Its last two cases are alike.
  pub mark_ended : Option Error → T → State T → State T
  mark_ended none now s = record s { status = stopped; error = []; stopped_at = some now }
  mark_ended (some e) now s =
      if is_stopping s.status
      then record s { status = stopped; error = []; stopped_at = some now }
      else record s {
        status = failed;
        error = compact_error_text (message e);
        stopped_at = some now;
      }

-- The error of a coordinator that has no runner.
abbrev pub nil_runner : Error
nil_runner = plain (codes "benchmark runner is nil")

module _ (fl : Floats) {T : Type 0} where
  open fl use {F}

  pub normalize_results_sample : State T → Sample F → Sample F
  unfolding bytes_eq
  normalize_results_sample s sample =
      if is_stopped s.status
        && is_empty s.error
        && bytes_eq (compact_error_text sample.latest_error) (codes "context canceled")
      then record sample { latest_error = [] }
      else sample

  pub state_to_results : State T → Sample F → Results F T
  unfolding normalize_results_sample
  state_to_results s sample = record {
    status = s.status;
    options = s.options;
    started_at = s.started_at;
    stopped_at = s.stopped_at;
    error = s.error;
    stats = stats_of fl (normalize_results_sample s sample);
  }

module _ (fl : Floats) {T R : Type 0} where
  open fl use {F}

  unfoldable pub new : Coordinator F T R
  new = record {
    state = record {
      status = idle;
      options = zero_options;
      started_at = none;
      stopped_at = none;
      error = [];
    };
    sample = zero_sample fl;
    run = none;
    cancel = none;
    run_id = 0;
  }

  -- Start, up to the call of the runner; the first argument is ctx.Err().
  unfoldable pub begin_start :
      Option Error → StartOptions → Coordinator F T R → Coordinator F T R × Begin T
  begin_start (some e) options c = (c, refused c.state (wrap (codes "start benchmark run") e))
  begin_start none options c =
      let id = (c.run_id + 1) % uint64_mod in
      if is_active c.state.status then (c, refused c.state (sentinel run_active)) else (
        record {
          state = fresh_state options;
          sample = zero_sample fl;
          run = none;
          cancel = some id;
          run_id = id;
        },
        begun id,
      )

  unfoldable pub finish_start_failure :
      ℕ → StartOptions → Error → T → Coordinator F T R → Coordinator F T R × State T × Error
  unfolding mark_start_failed
  finish_start_failure id options e now c =
      if not (c.run_id == id)
      then (c, c.state, e)
      else let s = mark_start_failed options e now c.state in
        (record c { state = s; sample = zero_sample fl; run = none; cancel = none }, s, e)

  -- Start, from the runner's success on; the last part of the result tells whether it has started
  -- the goroutine of waitForRun.
  unfoldable pub finish_start : ℕ → R → T → Coordinator F T R → Coordinator F T R × State T × Bool
  unfolding mark_started
  finish_start id r now c =
      if not (c.run_id == id)
      then (c, c.state, false)
      else let s = mark_started now c.state in (record c { state = s; run = some r }, s, true)

  -- `answer` is what c.run.Alter(options) returns.
  unfoldable pub alter :
      AlterOptions
      → Result (Unit {0})
      → Coordinator F T R
      → Coordinator F T R × State T × Option Error
  alter a answer c =
      if not (is_running c.state.status) || not (is_some c.run)
      then (c, c.state, some (sentinel run_not_running))
      else elim (apply_alter c.state.options a) [
        | err e ↦ (c, c.state, some e)
        | ok updated ↦ elim answer [
          | err e ↦ (c, c.state, some e)
          | ok _ ↦ let s = record c.state { options = updated } in (record c { state = s }, s, none)
        ]
      ]

  -- The last part of the result is the id of the run whose context is cancelled.
  unfoldable pub stop : Coordinator F T R → Coordinator F T R × State T × Option ℕ
  stop c =
      if is_starting c.state.status || is_running c.state.status
      then (let s = record c.state { status = stopping } in (record c { state = s }, s, c.cancel))
      else (c, c.state, none)

  -- What Results and Metrics read: the live sample of the run, or the last one kept.
  pub current_sample : Sample F → Coordinator F T R → Sample F
  current_sample live c = if is_some c.run then live else c.sample

  unfoldable pub results : Sample F → Coordinator F T R → Results F T
  unfolding state_to_results current_sample
  results live c = state_to_results fl c.state (current_sample live c)

  unfoldable pub metrics : Sample F → Coordinator F T R → MetricsSnapshot F
  unfolding current_sample
  metrics live c = metrics_of fl (current_sample live c) (is_active c.state.status)

  -- waitForRun, from run.Wait() on: `e` is its error and `last` the run's last sample.
  unfoldable pub wait_for_run :
      ℕ → Option Error → Sample F → T → Coordinator F T R → Coordinator F T R
  unfolding mark_ended
  wait_for_run id e last now c =
      if not (c.run_id == id)
      then c
      else record c { state = mark_ended e now c.state; sample = last; run = none; cancel = none }
