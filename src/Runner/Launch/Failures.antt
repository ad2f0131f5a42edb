-- ===== src/Runner/Launch/Failures.antt =====
-- Where the error of a start comes from.
use pg_gobench.Base.{
  ◌≡◌, refl, ◌⊎◌, inl, inr, Bool, true, false, not, Option, none, some, List, codes, Text, Error,
  plain, wrap, Result, ok, err, ◌>>◌, refuse_if, ltb_ℤ, leb_ℤ, pos, str_eq, if◌then◌else◌,
}
use pg_gobench.Benchmark.Options.{
  StartOptions, profile_read, profile_write, profile_mixed, profile_transaction, profile_join,
  profile_lock,
}
use pg_gobench.Benchmark.Scale.{resolve_scale}
use pg_gobench.Runner.Workload.Plans.{Plan, new_sql_workload_plan}
use pg_gobench.Runner.Launch.{
  Statement, setup_statements, check_start, execute_all, with_plan, launch, start_run,
}
use pg_gobench.Runner.Launch.Setup.{execute_all-Executes, Executes}

-- A message of the runner's own, or the labelled answer of the database to a statement.
abbrev pub IsLaunchError : (Statement → Option Error) → Error → Type 0
IsLaunchError db e =
    ((t : Text) × (e ≡ plain t))
    ⊎ ((x : Statement) × (d : Error) × (db x ≡ some d)
        × (e ≡ wrap (codes "setup benchmark schema") d))

module _ (db : Statement → Option Error) where
  abbrev pub Fails : {V : Type 0} → Result V → Type 0
  Fails (ok v) = Unit
  Fails (err e) = IsLaunchError db e

  refuse_if-Fails :
      {V : Type 0} (b : Bool) (t : Text) (m : Result V) → Fails m → Fails (refuse_if b t >> m)
  refuse_if-Fails true t m f = inl (t, refl)
  refuse_if-Fails false t m f = f

  last-Fails : (b : Bool) (t : Text) → Fails (refuse_if b t)
  last-Fails true t = inl (t, refl)
  last-Fails false t = tt

  >>-Fails :
      {V : Type 0} (m : Result (Unit {0})) (k : Result V) → Fails m → Fails k → Fails (m >> k)
  >>-Fails (ok v) k f g = g
  >>-Fails (err e) k f g = f

  check_start-Fails : (b : Bool) (o : StartOptions) → Fails (check_start b o)
  unfolding check_start
  check_start-Fails b o =
      let last =
        last-Fails (leb_ℤ o.duration_seconds o.warmup_seconds)
          (codes "warmup_seconds must be less than duration_seconds") in
      let fifth =
        refuse_if-Fails (ltb_ℤ o.warmup_seconds (pos 0)) (codes "warmup_seconds must be at least 0")
          _ last in
      let fourth =
        refuse_if-Fails (ltb_ℤ o.duration_seconds (pos 1))
          (codes "duration_seconds must be at least 1") _ fifth in
      let third =
        refuse_if-Fails (ltb_ℤ o.clients (pos 1)) (codes "clients must be at least 1") _ fourth in
      let second =
        refuse_if-Fails (ltb_ℤ o.scale (pos 1)) (codes "scale must be at least 1") _ third in
      refuse_if-Fails (not b) (codes "setup benchmark schema: database handle is nil") _ second

  if-Fails :
      {V : Type 0} (b : Bool) (v : V) (r : Result V) → Fails r → Fails (if b then ok v else r)
  if-Fails true v r f = tt
  if-Fails false v r f = f

  plan-Fails : (o : StartOptions) → Fails (new_sql_workload_plan o)
  unfolding new_sql_workload_plan
  plan-Fails o = if-Fails (str_eq o.profile profile_read) _ _ (
      if-Fails (str_eq o.profile profile_write) _ _ (
        if-Fails (str_eq o.profile profile_mixed) _ _ (
          if-Fails (str_eq o.profile profile_transaction) _ _ (
            if-Fails (str_eq o.profile profile_join) _ _ (
              if-Fails (str_eq o.profile profile_lock) _ _
                (inl (codes "profile is not implemented yet", refl)))))))

  with_plan-Fails :
      (p : Plan) (xs : List Statement) (r : List Statement × Option Error)
      → Executes db xs r
      → Fails (with_plan p r).1
  unfolding with_plan
  with_plan-Fails p xs (sent, none) h = tt
  with_plan-Fails p xs (sent, some e) (inl (n, _, _)) = absurd (cc)
  with_plan-Fails p xs (sent, some e) (inr (d, n, s)) = inr (s.failing, d, s.fails, cc)

  launch-Fails : (xs : List Statement) (p : Result Plan) → Fails p → Fails (launch db xs p).1
  unfolding launch
  launch-Fails xs (err e) f = f
  launch-Fails xs (ok p) f = with_plan-Fails p xs (execute_all db xs) (execute_all-Executes db xs)

  -- Whatever the options, and with or without a database handle.
  pub start_run-Fails : (b : Bool) (o : StartOptions) → Fails (start_run b db o).1
  unfolding start_run
  start_run-Fails b o =
      launch-Fails (setup_statements o (resolve_scale o.scale))
        (check_start b o >> new_sql_workload_plan o)
        (>>-Fails (check_start b o) (new_sql_workload_plan o) (check_start-Fails b o)
          (plan-Fails o))
