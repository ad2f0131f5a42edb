-- ===== src/Runner/Workload.antt =====
-- The workloads of internal/benchrunner: workload.go, workload_read_write.go, workload_transaction.go,
-- workload_join.go, workload_lock.go, runTransactionalOperation of workload_sql.go and
-- operation_error.go. A plan is its counters; an operation is its kind, its error and the commands
-- it has sent, in order. What the database answers to a command is an argument. Notes and times of
-- history rows are left out. A division by a size of zero, at which Go panics, is not met: the runner
-- wants a scale of at least 1.
pub mod Plans
pub mod Ids
pub mod Outcomes
mod Examples
use pg_gobench.Base.{
  ℕ, ◌+◌, ◌-◌, ◌%◌, ◌≡◌, Bool, true, false, not, ◌&&◌, ◌||◌, Option, none, some, List, [], ◌∷◌,
  ◌++◌, ◌==◌, if◌then◌else◌, uint64_mod, ℤ, pos, ◌+ℤ◌, ◌-ℤ◌, ◌*ℤ◌, ltb_ℤ, to_uint64, of_uint64,
  wrap_int64, String, str_eq, Text, codes, Error, plain, wrap, postgres, counted, tx_done,
  errors_is, message, Result, ok, err,
}
use pg_gobench.Benchmark.Options.{
  StartOptions, profile_read, profile_write, profile_transaction, profile_join, profile_lock,
  profile_mixed, mix_balanced, mix_read_heavy, mix_write_heavy, value_or,
}
use pg_gobench.Benchmark.Scale.{ScaleModel}

-- `iteration - 1` on uint64.
abbrev pub before : ℕ → ℕ
before iteration = (iteration + (uint64_mod - 1)) % uint64_mod

unfoldable pub account_id : ℕ → ScaleModel → ℤ
account_id iteration s = of_uint64 ((before iteration % to_uint64 s.accounts + 1) % uint64_mod)

unfoldable pub branch_id : ℕ → ScaleModel → ℤ
branch_id iteration s = wrap_int64 (of_uint64 (before iteration % to_uint64 s.branches) +ℤ pos 1)

unfoldable pub teller_id : ℕ → ScaleModel → ℤ → ℤ
teller_id iteration s branch =
    let offset = of_uint64 (before iteration % 10) in
    let base = wrap_int64 (wrap_int64 ((branch -ℤ pos 1) *ℤ pos 10) +ℤ pos 1) in
    if ltb_ℤ s.tellers (wrap_int64 (base +ℤ offset)) then s.tellers else wrap_int64 (base +ℤ offset)

unfoldable pub hot_account_id : ℕ → ScaleModel → ℤ
hot_account_id iteration s =
    let hot_set_size = if ltb_ℤ (pos 8) s.accounts then pos 8 else s.accounts in
    of_uint64 ((before iteration % to_uint64 hot_set_size + 1) % uint64_mod)

unfoldable pub amount : ℕ → ℤ
amount iteration = of_uint64 (iteration % 97 + 1)

pub data OperationKind : Type 0 where
  point_read range_read history_insert account_update transaction : OperationKind
  join aggregation lock_contention hot_update : OperationKind

-- A command stands for a function of workload_sql.go at its arguments, or for a call on a
-- transaction; what it answers is the error it returns. inserts_history takes the account, the teller, the branch and the amount.
pub data Command : Type 0 where
  begins commits rolls_back sets_lock_timeout : Command
  reads_point locks_account joins : ℤ → Command
  reads_range : ℤ → ℤ → ℤ → Command
  inserts_history : ℤ → ℤ → ℤ → ℤ → Command
  updates_account updates_teller : ℤ → ℤ → Command
  aggregates : ℤ → Command

pub record Operation : Type 0 where
  pub kind : OperationKind
  pub error : Option Error
  pub sent : List Command

-- The commands sent by a piece of an operation, and its error.
abbrev pub Body : Type 0
Body = List Command × Option Error

abbrev pub Database : Type 0
Database = Command → Option Error

abbrev pub execute : Database → Command → Body
execute db c = (c ∷ [], db c)

-- The second part runs when the first returns a nil error.
infixr 20 ◌and_then◌
pub ◌and_then◌ : Body → Body → Body
(cs, some e) and_then k = (cs, some e)
(cs, none) and_then (ds, e) = (cs ++ ds, e)

pub named : Text → Body → Body
named label (cs, none) = (cs, none)
named label (cs, some e) = (cs, some (wrap label e))

abbrev pub operation : OperationKind → Body → Operation
operation k b = record { kind = k; error = b.1; sent = b.0 }

pub record TransactionLabels : Type 0 where
  pub begin : Text
  pub workload : Text
  pub rollback : Text
  pub commit : Text

-- The error of a failed step, given the answer to the rollback.
rolled_back : TransactionLabels → Error → Option Error → Error
rolled_back l e none = wrap l.workload e
rolled_back l e (some f) =
    if errors_is tx_done f
    then wrap l.workload e
    else Error.joined (wrap l.workload e) (wrap l.rollback f)

finish_transaction : Database → TransactionLabels → Body → Body
unfolding rolled_back named
finish_transaction db l (cs, some e) =
    (begins ∷ cs ++ rolls_back ∷ [], some (rolled_back l e (db rolls_back)))
finish_transaction db l (cs, none) = named l.commit (begins ∷ cs ++ commits ∷ [], db commits)

unfoldable pub run_transactional_operation :
    Database → OperationKind → TransactionLabels → Body → Operation
unfolding finish_transaction
run_transactional_operation db kind l body = elim (db begins) [
  | some e ↦ operation kind (begins ∷ [], some (wrap l.begin e))
  | none ↦ operation kind (finish_transaction db l body)
]

-- errors.As for a *pgconn.PgError: the code of the first one, depth first.
pg_code : Error → Option Text
pg_code (postgres code text) = some code
pg_code (wrap p e) = pg_code e
pg_code (counted e) = pg_code e
pg_code (Error.joined a b) =
    let in_second = pg_code b in elim (pg_code a) [ some c ↦ some c | none ↦ in_second ]
pg_code _ = none

starts_with : Text → Text → Bool
starts_with [] s = true
starts_with (c ∷ cs) [] = false
starts_with (c ∷ cs) (d ∷ s) = (c == d) && starts_with cs s

-- strings.Contains, the text sought first.
contains : Text → Text → Bool
contains t [] = starts_with t []
contains t (c ∷ s) = starts_with t (c ∷ s) || contains t s

abbrev has_code : Option Text → Text → Bool
has_code none code = false
has_code (some c) code = starts_with c code && starts_with code c

unfoldable pub is_lock_not_available_error : Error → Bool
unfolding pg_code starts_with contains
is_lock_not_available_error e =
    has_code (pg_code e) (codes "55P03") || contains (codes "SQLSTATE 55P03") (message e)

count_failed : Body → Body
count_failed (cs, none) = (cs, none)
count_failed (cs, some e) = (cs, some (counted e))

-- The end of the hot update's step.
count_lock_failure : Body → Body
unfolding is_lock_not_available_error
count_lock_failure (cs, none) = (cs, none)
count_lock_failure (cs, some e) =
    let wrapped = wrap (codes "update account") e in
    if is_lock_not_available_error e then (cs, some (counted wrapped)) else (cs, some wrapped)
