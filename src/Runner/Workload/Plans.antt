-- ===== src/Runner/Workload/Plans.antt =====
-- The plans of the workloads and their RunOnce: workload_read_write.go, workload_join.go,
-- workload_transaction.go and workload_lock.go, with newSQLWorkloadPlan of workload.go.
use pg_gobench.Base.{
  ℕ, ◌+◌, ◌%◌, Bool, ◌||◌, none, some, [], ◌==◌, if◌then◌else◌, uint64_mod, ℤ, pos, ◌+ℤ◌, ◌*ℤ◌,
  ltb_ℤ, wrap_int64, String, str_eq, codes, plain, Result, ok, err,
}
use pg_gobench.Benchmark.Options.{
  StartOptions, profile_read, profile_write, profile_transaction, profile_join, profile_lock,
  profile_mixed, mix_balanced, mix_read_heavy, mix_write_heavy, value_or,
}
use pg_gobench.Benchmark.Scale.{ScaleModel}
use pg_gobench.Runner.Workload.{
  account_id, branch_id, teller_id, hot_account_id, amount, Command, Operation, Body, Database,
  execute, ◌and_then◌, named, operation, run_transactional_operation, count_failed,
  count_lock_failure, point_read, range_read, history_insert, account_update, transaction, join,
  aggregation, lock_contention, hot_update, sets_lock_timeout, reads_point, locks_account, joins,
  reads_range, inserts_history, updates_account, updates_teller, aggregates,
}

abbrev is_odd : ℕ → Bool
is_odd n = n % 2 == 1

abbrev next : ℕ → ℕ
next counter = (counter + 1) % uint64_mod

module _ (db : Database) (s : ScaleModel) (it : ℕ) where
  -- The end of the range that a read takes in.
  abbrev range_end : ℤ
  range_end =
      let last = wrap_int64 (branch_id it s +ℤ wrap_int64 (s.branches *ℤ pos 9)) in
      if ltb_ℤ s.accounts last then s.accounts else last

  unfoldable pub run_read : Operation
  unfolding named
  run_read =
      let branch = branch_id it s in
      if is_odd it
      then operation point_read
          (named (codes "point read") (execute db (reads_point (account_id it s))))
      else operation range_read
          (named (codes "range read") (execute db (reads_range branch branch range_end)))

  abbrev history : Command
  history =
      let branch = branch_id it s in
      inserts_history (account_id it s) (teller_id it s branch) branch (amount it)

  unfoldable pub run_write : Operation
  unfolding named
  run_write =
      if is_odd it
      then operation history_insert (named (codes "insert history") (execute db history))
      else operation account_update (
          named (codes "update account")
            (execute db (updates_account (account_id it s) (amount it))))

  unfoldable pub run_join : Operation
  unfolding named
  run_join =
      if is_odd it
      then operation join (named (codes "join workload") (execute db (joins (account_id it s))))
      else operation aggregation
          (named (codes "aggregation workload") (execute db (aggregates (branch_id it s))))

  -- The switch on the mix.
  transaction_range : String → Body
  unfolding named
  transaction_range mix =
      let branch = branch_id it s in
      if str_eq mix mix_read_heavy
      then named (codes "range read in transaction") (
          execute db
            (reads_range branch branch (wrap_int64 (branch +ℤ wrap_int64 (s.branches *ℤ pos 4)))))
      else if str_eq mix mix_balanced || str_eq mix mix_write_heavy
      then ([], none)
      else ([], some (plain (codes "transaction mix is not implemented")))

  transaction_teller : String → Body
  unfolding named
  transaction_teller mix =
      if str_eq mix mix_write_heavy
      then named (codes "update teller in transaction")
          (execute db (updates_teller (teller_id it s (branch_id it s)) (amount it)))
      else ([], none)

  transaction_body : String → Body
  unfolding transaction_range transaction_teller ◌and_then◌ named
  transaction_body mix =
      named (codes "point read in transaction") (execute db (reads_point (account_id it s)))
      and_then transaction_range mix
      and_then named (codes "update account in transaction")
          (execute db (updates_account (account_id it s) (amount it)))
      and_then transaction_teller mix
      and_then named (codes "insert history in transaction") (execute db history)

  unfoldable pub run_transaction : String → Operation
  unfolding run_transactional_operation transaction_body
  run_transaction mix =
      run_transactional_operation db transaction
        record {
          begin = codes "begin transaction";
          workload = codes "transaction workload";
          rollback = codes "rollback transaction";
          commit = codes "commit transaction";
        }
        (transaction_body mix)

  unfoldable pub run_lock_contention : Operation
  unfolding run_transactional_operation ◌and_then◌ count_failed
  run_lock_contention =
      run_transactional_operation db lock_contention
        record {
          begin = codes "begin lock contention transaction";
          workload = codes "lock contention";
          rollback = codes "rollback lock contention transaction";
          commit = codes "commit lock contention transaction";
        }
        (execute db sets_lock_timeout
          and_then count_failed (execute db (locks_account (hot_account_id it s))))

  unfoldable pub run_hot_update : Operation
  unfolding run_transactional_operation ◌and_then◌ count_lock_failure
  run_hot_update =
      run_transactional_operation db hot_update
        record {
          begin = codes "begin hot update transaction";
          workload = codes "hot update";
          rollback = codes "rollback hot update transaction";
          commit = codes "commit hot update transaction";
        }
        (execute db sets_lock_timeout
          and_then count_lock_failure
              (execute db (updates_account (hot_account_id it s) (amount it))))

-- The plans, with the counters of the workloads that each has.
pub data Plan : Type 0 where
  reads writes join_queries locks : ℕ → Plan
  mixes : ℤ → ℕ → ℕ → ℕ → Plan
  transactions : String → ℕ → Plan

-- newSQLWorkloadPlan, with effectiveReadPercent and effectiveTransactionMix.
unfoldable pub new_sql_workload_plan : StartOptions → Result Plan
new_sql_workload_plan o =
    if str_eq o.profile profile_read
    then ok (reads 0)
    else if str_eq o.profile profile_write
    then ok (writes 0)
    else if str_eq o.profile profile_mixed
    then ok (mixes (value_or o.read_percent (pos 80)) 0 0 0)
    else if str_eq o.profile profile_transaction
    then ok
        (transactions (if str_eq o.transaction_mix "" then mix_balanced else o.transaction_mix) 0)
    else if str_eq o.profile profile_join
    then ok (join_queries 0)
    else if str_eq o.profile profile_lock
    then ok (locks 0)
    else err (plain (codes "profile is not implemented yet"))

-- The test of mixedWorkload.
unfoldable pub picks_read : ℤ → ℕ → Bool
picks_read read_percent iteration = ltb_ℤ (pos (iteration % 100)) read_percent

-- RunOnce of each plan: the counters after it and the operation.
unfoldable pub run_once : Database → ScaleModel → Plan → Plan × Operation
unfolding picks_read
run_once db s (reads c) = (reads (next c), run_read db s (next c))
run_once db s (writes c) = (writes (next c), run_write db s (next c))
run_once db s (join_queries c) = (join_queries (next c), run_join db s (next c))
run_once db s (locks c) = (
  locks (next c),
  if is_odd (next c) then run_lock_contention db s (next c) else run_hot_update db s (next c),
)
run_once db s (mixes p c r w) =
    if picks_read p (next c)
    then (mixes p (next c) (next r) w, run_read db s (next r))
    else (mixes p (next c) r (next w), run_write db s (next w))
run_once db s (transactions mix c) = (transactions mix (next c), run_transaction db s (next c) mix)
