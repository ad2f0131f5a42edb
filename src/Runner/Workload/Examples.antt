-- ===== src/Runner/Workload/Examples.antt =====
-- Operations on a dataset of scale 2.
use pg_gobench.Base.{
  ℕ, ◌≡◌, ◌≢◌, refl, ◌⊎◌, arith, true, none, some, [], ◌∷◌, ◌++◌, pos, codes, postgres, eq_iff,
}
use pg_gobench.Benchmark.Options.{StartOptions}
use pg_gobench.Benchmark.Options.Validation.{IsValidStart}
use pg_gobench.Benchmark.Scale.{ScaleModel, resolve_scale}
use pg_gobench.Runner.Workload.{
  transaction, account_id, branch_id, teller_id, Body, begins, commits, rolls_back, locks_account,
  updates_account, Database, TransactionLabels, run_transactional_operation,
  is_lock_not_available_error,
}
use pg_gobench.Runner.Workload.Ids.{IsRowOf, ids-IsRowOf}
use pg_gobench.Runner.Workload.Outcomes.{run_transactional_operation-sent}

-- Iteration 123457 at scale 2.
ids-IsRowOf_example :
    (a : ℕ) × (t : ℕ) × (b : ℕ) × (account_id 123457 (resolve_scale (pos 2)) ≡ pos a)
    × (teller_id 123457 (resolve_scale (pos 2)) (branch_id 123457 (resolve_scale (pos 2))) ≡ pos t)
    × (branch_id 123457 (resolve_scale (pos 2)) ≡ pos b)
    × IsRowOf 2 a t b
ids-IsRowOf_example = ids-IsRowOf 2 123457 (omega arith) (omega arith)

abbrev two : ScaleModel
two = resolve_scale (pos 2)

-- A database where every lock of a row is taken.
abbrev locked : Database
locked (locks_account a) = some (postgres (codes "55P03") (codes "could not obtain lock"))
locked (updates_account a v) = some (postgres (codes "55P03") (codes "lock timeout"))
locked _ = none

abbrev labels : TransactionLabels
labels = record {
  begin = codes "begin";
  workload = codes "work";
  rollback = codes "rollback";
  commit = codes "commit";
}

abbrev one_update : Body
one_update = (updates_account (pos 1) (pos 5) ∷ [], none)

run_transactional_operation-sent_example :
    ((locked begins ≢ none)
      × ((run_transactional_operation locked transaction labels one_update).sent ≡ begins ∷ []))
    ⊎ (((locked begins ≡ none)
          × (one_update.1 ≢ none)
          × ((run_transactional_operation locked transaction labels one_update).sent
              ≡ begins ∷ one_update.0 ++ rolls_back ∷ []))
        ⊎ ((locked begins ≡ none)
            × (one_update.1 ≡ none)
            × ((run_transactional_operation locked transaction labels one_update).sent
                ≡ begins ∷ one_update.0 ++ commits ∷ [])))
run_transactional_operation-sent_example =
    run_transactional_operation-sent locked transaction labels one_update

lock_timeout_is_counted :
    is_lock_not_available_error (postgres (codes "55P03") (codes "lock timeout")) ≡ true
unfolding is_lock_not_available_error
lock_timeout_is_counted = refl

abbrev lock_run : StartOptions
lock_run = record {
  scale = pos 2;
  clients = pos 4;
  duration_seconds = pos 30;
  warmup_seconds = pos 5;
  reset = true;
  profile = "lock";
  read_percent = none;
  transaction_mix = "";
  target_tps = none;
}

lock_run-IsValidStart : IsValidStart lock_run
lock_run-IsValidStart = ground (arith, eq_iff "lock" "lock")
