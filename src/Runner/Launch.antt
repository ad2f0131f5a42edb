-- ===== src/Runner/Launch.antt =====
-- Start of internal/benchrunner/runner.go, up to the active run, with its setup statements. A
-- statement is what it makes; its SQL text is left out. What the database answers to a statement is
-- an argument.
pub mod Setup
pub mod Failures
mod Examples
use pg_gobench.Base.{
  ◌≡◌, Bool, true, false, not, Option, none, some, List, [], ◌∷◌, ◌++◌, if◌then◌else◌, ℤ, pos,
  ltb_ℤ, leb_ℤ, String, codes, Error, plain, wrap, Result, ok, err, ◌>>=◌, ◌>>◌, refuse_if,
}
use pg_gobench.Benchmark.Options.{StartOptions}
use pg_gobench.Benchmark.Scale.{ScaleModel, resolve_scale}
use pg_gobench.Runner.Workload.Plans.{Plan, new_sql_workload_plan}

pub data Table : Type 0 where
  branches tellers accounts history : Table

-- Each stands for one statement of setupStatements, without its text. A fill takes the number of rows;
-- that of the accounts takes the number of branches first. That it inserts only into an empty table
-- is a condition in its text.
pub data Statement : Type 0 where
  drop_schema create_schema : Statement
  create_table create_index : Table → Statement
  fill_branches fill_tellers : ℤ → Statement
  fill_accounts : ℤ → ℤ → Statement

unfoldable pub setup_statements : StartOptions → ScaleModel → List Statement
setup_statements o s =
    (if o.reset then drop_schema ∷ [] else [])
    ++ (create_schema
        ∷ create_table branches
        ∷ create_table tellers
        ∷ create_table accounts
        ∷ create_table history
        ∷ create_index accounts
        ∷ create_index tellers
        ∷ create_index history
        ∷ fill_branches s.branches
        ∷ fill_tellers s.tellers
        ∷ fill_accounts s.branches s.accounts
        ∷ [])

-- The checks of Start.
unfoldable pub check_start : Bool → StartOptions → Result (Unit {0})
check_start has_db o = do
  refuse_if (not has_db) (codes "setup benchmark schema: database handle is nil")
  refuse_if (ltb_ℤ o.scale (pos 1)) (codes "scale must be at least 1")
  refuse_if (ltb_ℤ o.clients (pos 1)) (codes "clients must be at least 1")
  refuse_if (ltb_ℤ o.duration_seconds (pos 1)) (codes "duration_seconds must be at least 1")
  refuse_if (ltb_ℤ o.warmup_seconds (pos 0)) (codes "warmup_seconds must be at least 0")
  refuse_if (leb_ℤ o.duration_seconds o.warmup_seconds)
      (codes "warmup_seconds must be less than duration_seconds")

-- The loop over the statements: those that were executed, and the first error.
unfoldable pub execute_all :
    (Statement → Option Error) → List Statement → List Statement × Option Error
execute_all db [] = ([], none)
execute_all db (x ∷ xs) =
    let rest = execute_all db xs in
    elim (db x) [
      | some e ↦ (x ∷ [], some (wrap (codes "setup benchmark schema") e))
      | none ↦ (x ∷ rest.0, rest.1)
    ]

with_plan : Plan → List Statement × Option Error → List Statement × Result Plan
with_plan plan (xs, some e) = (xs, err e)
with_plan plan (xs, none) = (xs, ok plan)

launch : (Statement → Option Error) → List Statement → Result Plan → List Statement × Result Plan
unfolding with_plan
launch db xs (err e) = ([], err e)
launch db xs (ok plan) = with_plan plan (execute_all db xs)

-- The statements executed, and the plan of the run that is made.
unfoldable pub start_run :
    Bool → (Statement → Option Error) → StartOptions → List Statement × Result Plan
unfolding launch
start_run has_db db o =
    launch db (setup_statements o (resolve_scale o.scale))
      (check_start has_db o >> new_sql_workload_plan o)
