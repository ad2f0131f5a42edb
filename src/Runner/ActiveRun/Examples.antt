-- ===== src/Runner/ActiveRun/Examples.antt =====
-- A run of three clients, made smaller and larger, and ended.
use pg_gobench.Base.{
  ◌-◌, ◌≡◌, refl, inl, true, false, none, some, [], ◌∷◌, length, arith, pos, codes, plain, sentinel,
  canceled, ok, eq_iff,
}
use pg_gobench.Benchmark.Options.{StartOptions, AlterOptions, apply_alter}
use pg_gobench.Benchmark.Options.Validation.{IsValidStart}
use pg_gobench.Benchmark.Options.Altering.{apply_alter-succeeds_iff}
use pg_gobench.Runner.Stats.{new_run_stats, set_configured_clients}
use pg_gobench.Runner.ActiveRun.{
  ActiveRun, Round, alters, works, exits, finishes, resize_workers, new_active_run, run,
}
use pg_gobench.Runner.ActiveRun.Workers.{
  IsAscending, HasStarted, shrunk, resize_workers-shrunk, resize_workers-HasStarted,
}
use pg_gobench.Runner.ActiveRun.Ending.{run-first_final}
use pg_gobench.Runner.ActiveRun.Leaks.{IsCovered, run-IsCovered}

abbrev three_clients : ActiveRun
three_clients = record {
  stats = new_run_stats (pos 1) (pos 0) (pos 3);
  workers = 0 ∷ 1 ∷ 2 ∷ [];
  next_id = 3;
  goroutines = 0 ∷ 1 ∷ 2 ∷ [];
  cancelled = [];
  stopped = false;
  final = none;
  closed = false;
}

resize_workers-shrunk_example :
    resize_workers (pos 1) three_clients
    ≡ shrunk 1 (record three_clients { stats = set_configured_clients (pos 1) three_clients.stats })
resize_workers-shrunk_example =
    resize_workers-shrunk 1 3 three_clients (omega arith, (omega arith, (omega arith, omega arith)))
      (omega arith)

resize_workers-HasStarted_example :
    HasStarted
      (5 - length three_clients.workers)
      three_clients
      (resize_workers (pos 5) three_clients)
resize_workers-HasStarted_example = resize_workers-HasStarted 5 three_clients (omega arith)

abbrev lost_connection : Round
lost_connection = record {
  pace_error = none;
  cancelled_in_wait = false;
  kind = pos 0;
  error = some (plain (codes "connection reset"));
  started_at = pos 100;
  finished_at = pos 200;
  cancelled_in_run = false;
  cancelled_after = false;
}

abbrev over : ActiveRun
over = record three_clients { stopped = true; final = some none }

-- The duration is over; then a worker fails, one leaves, and the parent is cancelled.
run-first_final_example :
    ((run
        (works lost_connection ∷ exits 1 ∷ finishes (pos 300) (some (sentinel canceled)) ∷ [])
        over).final
      ≡ some none)
    × IsAscending 0
        (run
          (works lost_connection ∷ exits 1 ∷ finishes (pos 300) (some (sentinel canceled)) ∷ [])
          over).workers
        (run
          (works lost_connection ∷ exits 1 ∷ finishes (pos 300) (some (sentinel canceled)) ∷ [])
          over).next_id
run-first_final_example =
    run-first_final
      (works lost_connection ∷ exits 1 ∷ finishes (pos 300) (some (sentinel canceled)) ∷ []) none
      over refl (omega arith, (omega arith, (omega arith, omega arith)))

abbrev lock_run : StartOptions
lock_run = record {
  scale = pos 1;
  clients = pos 3;
  duration_seconds = pos 60;
  warmup_seconds = pos 0;
  reset = false;
  profile = "lock";
  read_percent = none;
  transaction_mix = "";
  target_tps = none;
}

abbrev five : AlterOptions
five = record { clients = some (pos 5); target_tps = none }

lock_run-IsValidStart : IsValidStart lock_run
lock_run-IsValidStart = ground (arith, eq_iff "lock" "lock")

five_accepted :
    apply_alter lock_run five ≡ ok (record lock_run { clients = pos 5; target_tps = none })
five_accepted =
    (apply_alter-succeeds_iff lock_run five (record lock_run { clients = pos 5; target_tps = none })
        lock_run-IsValidStart).1
      (
        record {
          some_field = inl (λ e. cc);
          clients_ok = ground arith;
          target_tps_ok = ground arith;
        },
        λ e. omega arith,
        refl,
      )

abbrev fewer : AlterOptions
fewer = record { clients = some (pos 2); target_tps = none }

-- The run is made smaller by one client, and a worker loses its connection.
run-IsCovered_example :
    IsCovered
      (run (alters fewer ∷ works lost_connection ∷ exits 0 ∷ []) (new_active_run lock_run (pos 7)))
run-IsCovered_example =
    run-IsCovered lock_run (pos 7) (alters fewer ∷ works lost_connection ∷ exits 0 ∷ [])
