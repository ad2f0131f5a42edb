-- ===== src/Runner/Workload/Outcomes.antt =====
-- What operations send to the database and when they fail.
use pg_gobench.Base.{
  ℕ, zero, suc, ◌+◌, ◌*◌, ◌%◌, ◌≤◌, ◌<◌, ◌≡◌, ◌≢◌, refl, ◌↔◌, ◌⊎◌, arith, Bool, true, false, Option,
  none, some, [], ◌∷◌, ◌++◌, ltb, if◌then◌else◌, ℤ, pos, Error, Result, ok, err, eq_iff,
}
use pg_gobench.Benchmark.Options.{
  StartOptions, validate_start_options, profile_read, profile_write, profile_transaction,
  profile_join, profile_lock, profile_mixed,
}
use pg_gobench.Benchmark.Options.Validation.{validate_start_options_iff, IsProfile}
use pg_gobench.Benchmark.Scale.{ScaleModel}
use pg_gobench.Runner.ActiveRun.{is_counted_operation_error}
use pg_gobench.Runner.Workload.{
  OperationKind, begins, commits, rolls_back, sets_lock_timeout, locks_account, updates_account,
  Body, Database, TransactionLabels, run_transactional_operation, finish_transaction, rolled_back,
  hot_account_id, amount, is_lock_not_available_error, count_failed, count_lock_failure, ◌and_then◌,
  named,
}
use pg_gobench.Runner.Workload.Plans.{
  run_lock_contention, run_hot_update, picks_read, new_sql_workload_plan, Plan,
}

-- A transactional operation has no error exactly when its begin, its step and its commit have none.
pub run_transactional_operation-succeeds_iff :
    (db : Database) (k : OperationKind) (l : TransactionLabels) (b : Body)
    → ((run_transactional_operation db k l b).error ≡ none)
      ↔ ((db begins ≡ none) × (b.1 ≡ none) × (db commits ≡ none))
unfolding run_transactional_operation finish_transaction named
run_transactional_operation-succeeds_iff db k l (cs, e) = ground arith

-- What a transactional operation sends: nothing after a failed begin; else the commands of the step
-- between the begin and the rollback, if the step fails, or the commit, if it does not.
pub run_transactional_operation-sent :
    (db : Database) (k : OperationKind) (l : TransactionLabels) (b : Body)
    → ((db begins ≢ none) × ((run_transactional_operation db k l b).sent ≡ begins ∷ []))
      ⊎ (((db begins ≡ none)
            × (b.1 ≢ none)
            × ((run_transactional_operation db k l b).sent ≡ begins ∷ b.0 ++ rolls_back ∷ []))
          ⊎ ((db begins ≡ none)
              × (b.1 ≡ none)
              × ((run_transactional_operation db k l b).sent ≡ begins ∷ b.0 ++ commits ∷ [])))
unfolding run_transactional_operation finish_transaction named
run_transactional_operation-sent db k l (cs, e) = ground arith

-- An error that the worker counts and goes on after.
abbrev pub fails_counted : Option Error → Bool
fails_counted none = false
fails_counted (some e) = is_counted_operation_error e

-- Whatever error the NOWAIT lock of a hot account gives, the lock contention operation that began
-- and set its timeout rolls back, and fails with an error that is counted.
pub run_lock_contention-counted :
    (db : Database) (s : ScaleModel) (it : ℕ) (e : Error)
    → db begins ≡ none
    → db sets_lock_timeout ≡ none
    → db (locks_account (hot_account_id it s)) ≡ some e
    → (fails_counted (run_lock_contention db s it).error ≡ true)
      × ((run_lock_contention db s it).sent
          ≡ begins ∷ sets_lock_timeout ∷ locks_account (hot_account_id it s) ∷ rolls_back ∷ [])
unfolding run_lock_contention run_transactional_operation finish_transaction rolled_back ◌and_then◌
    count_failed is_counted_operation_error
run_lock_contention-counted db s it e b t h = ground (arith, b, t, h)

-- A hot update whose statement fails, after a begin and a timeout that do not, fails with an error
-- that is counted exactly when the statement's error is a lock that is not available or was
-- counted itself, provided the rollback gives no error.
pub run_hot_update-counted_iff :
    (db : Database) (s : ScaleModel) (it : ℕ) (e : Error)
    → db begins ≡ none
    → db sets_lock_timeout ≡ none
    → db rolls_back ≡ none
    → db (updates_account (hot_account_id it s) (amount it)) ≡ some e
    → (fails_counted (run_hot_update db s it).error ≡ true)
      ↔ ((is_lock_not_available_error e ≡ true) ⊎ (is_counted_operation_error e ≡ true))
unfolding run_hot_update run_transactional_operation finish_transaction rolled_back ◌and_then◌
    count_lock_failure is_counted_operation_error
run_hot_update-counted_iff db s it e b t r h = ground (arith, b, t, r, h)

-- How many of `n` iterations, the one after the given first, are reads.
abbrev pub reads_among : ℤ → ℕ → ℕ → ℕ
reads_among p a zero = 0
reads_among p a (suc n) = (if picks_read p a then 1 else 0) + reads_among p (suc a) n

abbrev capped : ℕ → ℕ → ℕ
capped p n = if ltb n p then n else p

block_index : (a k j : ℕ) → a ≡ 100 * k + j → j < 100 → a % 100 ≡ j
block_index a k j e l = omega (arith, e, l)

reads_among-block :
    (p a k j n : ℕ)
    → a ≡ 100 * k + j
    → j + n ≤ 100
    → reads_among (pos p) a n + capped p j ≡ capped p (j + n)
unfolding picks_read
reads_among-block p a k j zero e l = ground arith
reads_among-block p a k j (suc n) e l =
    let rest = reads_among-block p (suc a) k (suc j) n (omega (arith, e)) (omega (arith, l)) in
    let here = block_index a k j e (omega (arith, l)) in rw here (ground (arith, rest))

reads_among-all : (p k n : ℕ) → n ≤ 100 → p ≤ n → reads_among (pos p) (100 * k) n ≡ p
reads_among-all p k n l m =
    let whole = reads_among-block p (100 * k) k 0 n (omega arith) (omega (arith, l)) in
    ground (arith, whole, m)

-- Of the hundred iterations from a multiple of a hundred on, the mixed workload makes as many reads
-- as its read percent says.
pub reads_among_hundred : (p k : ℕ) → p ≤ 100 → reads_among (pos p) (100 * k) 100 ≡ p
reads_among_hundred p k l = reads_among-all p k 100 (omega arith) l

plan_not_refused :
    (o : StartOptions) (e : Error) → IsProfile o.profile → new_sql_workload_plan o ≢ err e
unfolding new_sql_workload_plan
plan_not_refused o e v = ground (
  arith,
  v,
  eq_iff o.profile profile_read,
  eq_iff o.profile profile_write,
  eq_iff o.profile profile_transaction,
  eq_iff o.profile profile_join,
  eq_iff o.profile profile_lock,
  eq_iff o.profile profile_mixed,
)

Result-total : (r : Result Plan) → ((e : Error) → r ≢ err e) → (plan : Plan) × (r ≡ ok plan)
Result-total (ok plan) n = (plan, refl)
Result-total (err e) n = absurd (n e refl)

-- The runner has a plan for all options that are accepted for a run.
pub new_sql_workload_plan-total :
    (o : StartOptions)
    → validate_start_options o ≡ ok tt
    → (plan : Plan) × (new_sql_workload_plan o ≡ ok plan)
new_sql_workload_plan-total o h =
    let v = (validate_start_options_iff o).0 h in
    Result-total (new_sql_workload_plan o) (λ e. plan_not_refused o e v.profile_known)
