-- ===== src/Runner/Launch/Examples.antt =====
-- The start of a lock run on a database whose disk is full.
use pg_gobench.Base.{
  ◌≡◌, ◌⊎◌, arith, true, Option, none, some, List, All, pos, codes, Error, plain, wrap, ok, err,
  eq_iff,
}
use pg_gobench.Benchmark.Options.{StartOptions}
use pg_gobench.Benchmark.Options.Validation.{IsValidStart, validate_start_options_iff}
use pg_gobench.Benchmark.Scale.{resolve_scale}
use pg_gobench.Runner.Workload.Plans.{Plan, new_sql_workload_plan}
use pg_gobench.Runner.Launch.{Statement, fill_accounts, setup_statements, start_run}
use pg_gobench.Runner.Launch.Setup.{StopsAt, start_run-outcomes}

abbrev lock_run : StartOptions
lock_run = record {
  scale = pos 2;
  clients = pos 2;
  duration_seconds = pos 10;
  warmup_seconds = pos 1;
  reset = true;
  profile = "lock";
  read_percent = none;
  transaction_mix = "";
  target_tps = none;
}

lock_run-IsValidStart : IsValidStart lock_run
lock_run-IsValidStart = ground (arith, eq_iff "lock" "lock")

abbrev full_disk : Statement → Option Error
full_disk (fill_accounts b n) = some (plain (codes "disk full"))
full_disk _ = none

start_run-outcomes_example :
    (plan : Plan) × (new_sql_workload_plan lock_run ≡ ok plan)
    × (((start_run true full_disk lock_run
            ≡ (setup_statements lock_run (resolve_scale (pos 2)), ok plan))
          × All (λ x. full_disk x ≡ none) (setup_statements lock_run (resolve_scale (pos 2))))
        ⊎ ((sent : List Statement) × (e : Error) × (start_run true full_disk lock_run
              ≡ (sent, err (wrap (codes "setup benchmark schema") e)))
            × StopsAt full_disk (setup_statements lock_run (resolve_scale (pos 2))) sent e))
start_run-outcomes_example =
    start_run-outcomes full_disk lock_run
      ((validate_start_options_iff lock_run).1 lock_run-IsValidStart)
