-- ===== src/Runner/Launch/Setup.antt =====
-- What the start of a run sends to the database.
use pg_gobench.Base.{
  ◌≡◌, refl, ap, subst, Option-cases, ◌∙◌, ◌⊎◌, inl, inr, arith, true, Option, none, some, List, [],
  ◌∷◌, ◌++◌, All, codes, Error, wrap, ok, err, ◌>>◌,
}
use pg_gobench.Benchmark.Options.{StartOptions, validate_start_options}
use pg_gobench.Benchmark.Options.Validation.{validate_start_options_iff}
use pg_gobench.Benchmark.Scale.{resolve_scale}
use pg_gobench.Runner.Workload.Plans.{Plan, new_sql_workload_plan}
use pg_gobench.Runner.Workload.Outcomes.{new_sql_workload_plan-total}
use pg_gobench.Runner.Launch.{
  Statement, setup_statements, check_start, execute_all, with_plan, launch, start_run,
}

-- The list was gone through up to a statement that failed, and no further.
pub record StopsAt (db : Statement → Option Error) (xs sent : List Statement) (e : Error)
    : Type 0 where
  pub done : List Statement
  pub failing : Statement
  pub rest : List Statement
  pub whole : xs ≡ done ++ failing ∷ rest
  pub done_succeed : All (λ x. db x ≡ none) done
  pub fails : db failing ≡ some e
  pub sent_is : sent ≡ done ++ failing ∷ []

stops_later :
    (db : Statement → Option Error) (x : Statement) (xs sent : List Statement) (e : Error)
    → db x ≡ none
    → StopsAt db xs sent e
    → StopsAt db (x ∷ xs) (x ∷ sent) e
stops_later db x xs sent e n s = record {
  done = x ∷ s.done;
  failing = s.failing;
  rest = s.rest;
  whole = ap (λ ys. x ∷ ys) s.whole;
  done_succeed = (n, s.done_succeed);
  fails = s.fails;
  sent_is = ap (λ ys. x ∷ ys) s.sent_is;
}

-- The two outcomes of going through a list.
abbrev pub Executes :
    (Statement → Option Error) → List Statement → List Statement × Option Error → Type 0
Executes db xs (sent, o) =
    ((o ≡ none) × (sent ≡ xs) × All (λ x. db x ≡ none) xs)
    ⊎ ((e : Error) × (o ≡ some (wrap (codes "setup benchmark schema") e)) × StopsAt db xs sent e)

later-Executes :
    (db : Statement → Option Error) (x : Statement) (xs : List Statement)
    (r : List Statement × Option Error)
    → db x ≡ none
    → Executes db xs r
    → Executes db (x ∷ xs) (x ∷ r.0, r.1)
later-Executes db x xs (sent, o) n (inl (u, v, w)) = inl (u, ap (λ ys. x ∷ ys) v, (n, w))
later-Executes db x xs (sent, o) n (inr (e, u, s)) = inr (e, u, stops_later db x xs sent e n s)

stops_here :
    (db : Statement → Option Error) (x : Statement) (xs : List Statement) (e : Error)
    → db x ≡ some e
    → StopsAt db (x ∷ xs) (x ∷ []) e
stops_here db x xs e f = record {
  done = [];
  failing = x;
  rest = xs;
  whole = refl;
  done_succeed = tt;
  fails = f;
  sent_is = refl;
}

executed_none :
    (db : Statement → Option Error) (x : Statement) (xs : List Statement)
    → db x ≡ none
    → (x ∷ (execute_all db xs).0, (execute_all db xs).1) ≡ execute_all db (x ∷ xs)
unfolding execute_all
executed_none db x xs n = rw (execute_all, n) refl

executed_some :
    (db : Statement → Option Error) (x : Statement) (xs : List Statement) (e : Error)
    → db x ≡ some e
    → (x ∷ [], some (wrap (codes "setup benchmark schema") e)) ≡ execute_all db (x ∷ xs)
unfolding execute_all
executed_some db x xs e f = rw (execute_all, f) refl

pub execute_all-Executes :
    (db : Statement → Option Error) (xs : List Statement) → Executes db xs (execute_all db xs)
unfolding execute_all
execute_all-Executes db [] = inl (refl, refl, tt)
execute_all-Executes db (x ∷ xs) =
    let later = execute_all-Executes db xs in
    elim (Option-cases (db x)) [
      | inl n ↦
          subst (λ r. Executes db (x ∷ xs) r) (executed_none db x xs n)
            (later-Executes db x xs (execute_all db xs) n later)
      | inr (e, f) ↦
          subst (λ r. Executes db (x ∷ xs) r) (executed_some db x xs e f)
            (inr (e, refl, stops_here db x xs e f))
    ]

check_start-ok : (o : StartOptions) → validate_start_options o ≡ ok tt → check_start true o ≡ ok tt
unfolding check_start
check_start-ok o h =
    let v = (validate_start_options_iff o).0 h in
    ground (
      arith, v.scale_positive, v.clients_positive, v.duration_positive, v.warmup_nonneg,
      v.warmup_short,
    )

with_plan-outcomes :
    (db : Statement → Option Error) (plan : Plan) (xs : List Statement)
    (r : List Statement × Option Error)
    → Executes db xs r
    → ((with_plan plan r ≡ (xs, ok plan)) × All (λ x. db x ≡ none) xs)
      ⊎ ((e : Error) × (with_plan plan r ≡ (r.0, err (wrap (codes "setup benchmark schema") e)))
          × StopsAt db xs r.0 e)
unfolding with_plan
with_plan-outcomes db plan xs (sent, o) (inl (u, v, w)) = inl (rw (u, v) refl, w)
with_plan-outcomes db plan xs (sent, o) (inr (e, u, s)) = inr (e, rw u refl, s)

-- The start of a run with accepted options either executes all setup statements in order, each
-- without an error, and makes a run of the plan for the options; or it stops at the first statement
-- that fails, having executed those before it, and returns that error under a label.
pub start_run-outcomes :
    (db : Statement → Option Error) (o : StartOptions)
    → validate_start_options o ≡ ok tt
    → (plan : Plan) × (new_sql_workload_plan o ≡ ok plan)
      × (((start_run true db o ≡ (setup_statements o (resolve_scale o.scale), ok plan))
            × All (λ x. db x ≡ none) (setup_statements o (resolve_scale o.scale)))
          ⊎ ((sent : List Statement) × (e : Error) × (start_run true db o
                ≡ (sent, err (wrap (codes "setup benchmark schema") e)))
              × StopsAt db (setup_statements o (resolve_scale o.scale)) sent e))
unfolding start_run launch
start_run-outcomes db o h =
    let (plan, p) = new_sql_workload_plan-total o h in
    let xs = setup_statements o (resolve_scale o.scale) in
    let planned = ap (λ c. c >> new_sql_workload_plan o) (check_start-ok o h) ∙ p in
    let started = ap (λ c. launch db xs c) planned in
    (
      plan,
      p,
      elim (with_plan-outcomes db plan xs (execute_all db xs) (execute_all-Executes db xs)) [
        | inl (g, a) ↦ inl (started ∙ g, a)
        | inr (e, g, s) ↦ inr ((execute_all db xs).0, e, started ∙ g, s)
      ],
    )
