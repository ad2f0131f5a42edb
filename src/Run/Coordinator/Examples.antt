-- ===== src/Run/Coordinator/Examples.antt =====
-- One run of the coordinator, from its start to a stop.
use pg_gobench.Base.{
  ℕ, ◌≡◌, refl, ◌↔◌, ◌⊎◌, false, none, some, List, [], ◌∷◌, arith, ltb, pos, pos_part, plain,
  sentinel, canceled, codes, ok, err, true, errors_is, Floats, eq_iff,
}
use pg_gobench.Benchmark.Options.{StartOptions, AlterOptions}
use pg_gobench.Benchmark.Options.Validation.{IsValidStart}
use pg_gobench.Run.Sample.{Sample, zero_sample}
use pg_gobench.Run.Coordinator
use pg_gobench.Run.Coordinator.{
  Coordinator, starting, running, stopped, failed, Begin, begun, is_active,
}
use pg_gobench.Run.Coordinator.System.{
  System, Event, start, launch_failed, launched, alter, stop, ended, initial, step, run,
}
use pg_gobench.Run.Coordinator.Lifecycle.{HasPhase, run-HasPhase}
use pg_gobench.Run.Coordinator.Settling.{IsSettled, FailsWith, launch_failed_outcome}
use pg_gobench.Run.Coordinator.Stopping.{IsLastRun, WindsDown, stop-WindsDown}
use pg_gobench.Run.Coordinator.Settings.{
  Refuses, Changes, alter_outcomes, OptionsHave, run-IsValidStart,
}
use pg_gobench.Run.Coordinator.Diagram.{at_halting, stage, Moves, step-stage_iff}
use pg_gobench.Run.Coordinator.Reports.{metrics-run_active_iff}

-- Whole numbers in place of floats.
abbrev whole : Floats
whole = record {
  F = ℕ;
  zero = 0;
  is_positive = λ x. ltb 0 x;
  of_uint64 = λ x. x;
  of_int64 = pos_part;
  mul = λ x y. x;
  div = λ x y. x;
  ceil = λ x. x;
  to_uint64 = λ x. x;
  seconds = pos_part;
}

abbrev read_run : StartOptions
read_run = record {
  scale = pos 1;
  clients = pos 2;
  duration_seconds = pos 30;
  warmup_seconds = pos 0;
  reset = false;
  profile = "read";
  read_percent = none;
  transaction_mix = "";
  target_tps = none;
}

read_run-IsValidStart : IsValidStart read_run
read_run-IsValidStart = ground (arith, eq_iff "read" "read", eq_iff "read" "lock")

abbrev more_clients : AlterOptions
more_clients = record { clients = some (pos 4); target_tps = none }

-- Times and runs are numbers.
abbrev Log : Type 0
Log = List (Event ℕ ℕ ℕ)

abbrev launch : Log
launch = start none read_run ∷ []

abbrev busy : Log
busy = start none read_run ∷ launched 0 7 100 ∷ start none read_run ∷ []

abbrev altered : Log
altered = start none read_run ∷ launched 0 7 100 ∷ alter more_clients (ok tt) ∷ stop ∷ []

abbrev after : Log → System ℕ ℕ ℕ
after log = run whole (initial whole) log

run-HasPhase_example : HasPhase whole (after busy)
run-HasPhase_example = run-HasPhase whole busy

busy_runs : (after busy).coordinator.state.status ≡ running
unfolding run initial step
busy_runs = refl

launch_pending : (after launch).launching ≡ (1, read_run) ∷ []
unfolding run initial step
launch_pending = refl

step-stage_iff_example :
    ((e : Event ℕ ℕ ℕ) × (stage whole (step whole (after busy) e) ≡ at_halting))
    ↔ ((stage whole (after busy) ≡ at_halting) ⊎ Moves (stage whole (after busy)) at_halting)
step-stage_iff_example =
    step-stage_iff whole (after busy) 7 100 at_halting (run-HasPhase whole busy)

-- While the launch is being stopped, another start is refused and so is an alter.
abbrev meanwhile : Log
meanwhile = start none read_run ∷ alter more_clients (ok tt) ∷ []

launch_starting : is_active (after launch).coordinator.state.status ≡ true
unfolding run initial step
launch_starting = refl

meanwhile-IsLastRun : IsLastRun whole (step whole (after launch) stop) meanwhile
unfolding run initial step
meanwhile-IsLastRun = (refl, (refl, tt))

stop-WindsDown_example :
    let u = run whole (step whole (after launch) stop) meanwhile in
    WindsDown whole (after launch).coordinator.state.options false u
    × (is_active u.coordinator.state.status ≡ true
        → IsSettled whole (after launch).coordinator.state.options (
            run whole u (
              launch_failed 0 (sentinel canceled) 101 ∷ ended 0 none (zero_sample whole) 102 ∷ [])))
unfolding errors_is
stop-WindsDown_example =
    stop-WindsDown whole (after launch) meanwhile (err (sentinel canceled)) 101 none
      (zero_sample whole) 102 (run-HasPhase whole launch) launch_starting meanwhile-IsLastRun refl

launch_failed_outcome_example :
    FailsWith whole
      (after launch).coordinator.state.status
      (after launch).coordinator.state.options
      (plain (codes "no server"))
      5
      (step whole (after launch) (launch_failed 0 (plain (codes "no server")) 5))
launch_failed_outcome_example =
    launch_failed_outcome whole (after launch) (plain (codes "no server")) 5
      (run-HasPhase whole launch) (λ e. cc (launch_pending, e))

alter_outcomes_example :
    Refuses whole more_clients (ok tt) (after busy).coordinator
    ⊎ ((o : StartOptions) × Changes whole more_clients (ok tt) (after busy).coordinator o)
alter_outcomes_example = alter_outcomes whole more_clients (ok tt) (after busy).coordinator

run-IsValidStart_example : OptionsHave whole IsValidStart (after altered)
run-IsValidStart_example =
    run-IsValidStart whole altered (read_run-IsValidStart, (tt, (tt, (tt, tt))))

abbrev cancelled_sample : Sample ℕ
cancelled_sample = record (zero_sample whole) { latest_error = codes "context canceled" }

abbrev stopped_run : Coordinator ℕ ℕ ℕ
stopped_run = record {
  state = record {
    status = stopped;
    options = read_run;
    started_at = some 100;
    stopped_at = some 200;
    error = [];
  };
  sample = cancelled_sample;
  run = none;
  cancel = none;
  run_id = 1;
}

metrics-run_active_iff_example :
    ((Coordinator.metrics whole (zero_sample whole) (after launch).coordinator).run_active ≡ false)
    ↔ (((after launch).launching ≡ []) × ((after launch).watched ≡ []))
metrics-run_active_iff_example =
    metrics-run_active_iff whole (after launch) (zero_sample whole) (run-HasPhase whole launch)
