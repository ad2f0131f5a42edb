-- ===== src/Server/Runs.antt =====
-- The server, the coordinator and the runner together: what a request to start a run comes to on
-- the database. An active run is represented by the plan it is made of.
use pg_gobench.Base.{
  ℕ, ◌≡◌, refl, sym, ap, ap₂, subst, ◌∙◌, List, [], ◌++◌, ◌⊎◌, arith, inl, inr, Bool, true, false,
  Option, none, some, All, codes, Error, wrap, errors_is, message, Result, ok, Floats,
}
use mathlib.Core.List.{append-nil}
use pg_gobench.Benchmark.Options.{
  StartOptions, StartPayload, decode_start_options, validate_start_options,
}
use pg_gobench.Benchmark.Options.Decoding.{decode_start_options_iff}
use pg_gobench.Benchmark.Options.Validation.{validate_start_options_iff}
use pg_gobench.Benchmark.Scale.{resolve_scale}
use pg_gobench.Run.ErrorText.{compact_error_text}
use pg_gobench.Run.Sample.{Sample, MetricsSnapshot}
use pg_gobench.Run.Coordinator
use pg_gobench.Run.Coordinator.{
  Coordinator, Begin, refused, begun, State, Results, is_active, running, failed,
}
use pg_gobench.Runner.Workload.Plans.{Plan, new_sql_workload_plan}
use pg_gobench.Runner.Launch.{Statement, setup_statements, start_run}
use pg_gobench.Runner.Launch.Setup.{StopsAt, start_run-outcomes}
use pg_gobench.Runner.Launch.Failures.{IsLaunchError, start_run-Fails, Fails}
use pg_gobench.Server.{
  Benchmark, answer, handle_start, handle_benchmark, handle, serve_route, dispatch, find_route,
  method_post, Request, Response, status_for_benchmark_error, serve,
}
use pg_gobench.Server.Coordinated.{
  World, IsOrdinary, coordinated, IsStartAnswer, handle_start-IsStartAnswer,
}

-- The database reports neither of the two errors that stand for a conflict.
abbrev pub IsOrdinaryDatabase : (Statement → Option Error) → Type 0
IsOrdinaryDatabase db =
    (x : Statement) (e : Error) → db x ≡ some e → status_for_benchmark_error e ≡ 500

error_ordinary :
    (db : Statement → Option Error) (e : Error)
    → IsOrdinaryDatabase db
    → IsLaunchError db e
    → status_for_benchmark_error e ≡ 500
unfolding status_for_benchmark_error errors_is
error_ordinary db e k (inl (t, p)) = rw p refl
error_ordinary db e k (inr (x, d, f, p)) = rw p (k x d f)

module _ (fl : Floats) {T : Type 0} (db : Statement → Option Error) (live : Sample fl.F)
    (now : T) where
  open fl use {F}

  -- The coordinator's runner is that of internal/benchrunner on the database.
  abbrev pub world : World F T Plan
  world = record {
    launch = λ o. (start_run true db o).1;
    alter_answer = ok tt;
    live = live;
    now = now;
  }

  pub world-IsOrdinary : IsOrdinaryDatabase db → IsOrdinary fl world
  world-IsOrdinary k o e h =
      error_ordinary db e k (subst (λ r. Fails db r) h (start_run-Fails db true o))

  -- The statements that a call of Start sends to the database: those of the runner's Start, once it
  -- is called.
  sent_by : StartOptions → Begin T → List Statement
  sent_by o (refused state e) = []
  sent_by o (begun id) = (start_run true db o).0

  -- The coordinator with that runner, next to all statements that the database has executed.
  unfoldable pub recorded :
      Benchmark (Coordinator F T Plan × List Statement) (State T) (Results F T) (MetricsSnapshot F)
  unfolding sent_by
  recorded =
      let b = coordinated fl world in
      record {
        start = λ context o (c, log).
            let (d, state, e) = b.start context o c in
            ((d, log ++ sent_by o (Coordinator.begin_start fl context o c).1), state, e);
        alter = λ a (c, log). let (d, state, e) = b.alter a c in ((d, log), state, e);
        stop = λ (c, log). let (d, state, e) = b.stop c in ((d, log), state, e);
        state = λ (c, log). b.state c;
        results = λ (c, log). b.results c;
        metrics = λ (c, log). b.metrics c;
      }

  -- The recorded handler is the coordinator's, and the log grows by what Start sends.
  handle_start-log :
      (r : Request) (o : StartOptions) (c : Coordinator F T Plan) (log : List Statement)
      → r.context ≡ none
      → r.start_options ≡ ok o
      → ((handle_start recorded r (c, log)).0.0 ≡ (handle_start (coordinated fl world) r c).0)
        × ((handle_start recorded r (c, log)).0.1
            ≡ log ++ sent_by o (Coordinator.begin_start fl none o c).1)
        × ((handle_start recorded r (c, log)).1.status
            ≡ (handle_start (coordinated fl world) r c).1.status)
  unfolding handle_start recorded answer
  handle_start-log r o c log x p = rw (x, p) (ground arith)

  sent_by-active :
      (o : StartOptions) (c : Coordinator F T Plan)
      → is_active c.state.status ≡ true
      → sent_by o (Coordinator.begin_start fl none o c).1 ≡ []
  unfolding sent_by Coordinator.begin_start
  sent_by-active o c a = rw a refl

  sent_by-free :
      (o : StartOptions) (c : Coordinator F T Plan)
      → is_active c.state.status ≡ false
      → sent_by o (Coordinator.begin_start fl none o c).1 ≡ (start_run true db o).0
  unfolding sent_by Coordinator.begin_start
  sent_by-free o c a = rw a refl

  abbrev Recorded : Type 0
  Recorded = Coordinator F T Plan × List Statement

  -- Every setup statement for the options was sent, in order and once, each was executed without an
  -- error, and the run of the plan for the options is under way.
  abbrev pub HasLaunched : StartOptions → List Statement → Recorded → ℕ → Type 0
  HasLaunched o log (d, after) status =
      (status ≡ 200)
      × (d.state.status ≡ running)
      × (d.state.options ≡ o)
      × (plan : Plan) × (new_sql_workload_plan o ≡ ok plan)
      × (d.run ≡ some plan)
      × (after ≡ log ++ setup_statements o (resolve_scale o.scale))
      × All (λ x. db x ≡ none) (setup_statements o (resolve_scale o.scale))

  -- The setup statements were sent up to the first that failed, and the coordinator shows its error.
  abbrev pub HasFailed : StartOptions → List Statement → Recorded → ℕ → Type 0
  HasFailed o log (d, after) status =
      (status ≡ 500)
      × (d.state.status ≡ failed)
      × (d.state.options ≡ o)
      × (d.run ≡ none)
      × (sent : List Statement) × (e : Error) × (after ≡ log ++ sent)
      × StopsAt db (setup_statements o (resolve_scale o.scale)) sent e
      × (d.state.error ≡ compact_error_text (message (wrap (codes "setup benchmark schema") e)))

  pub record IsOutcome (o : StartOptions) (c : Coordinator F T Plan) (log : List Statement)
      (after : Recorded) (status : ℕ) : Type 0 where
    pub when_active : is_active c.state.status ≡ true → (status ≡ 409) × (after ≡ (c, log))
    pub when_free :
        is_active c.state.status ≡ false
        → HasLaunched o log after status ⊎ HasFailed o log after status

  answer-IsOutcome :
      (o : StartOptions) (c d : Coordinator F T Plan) (log after : List Statement) (status : ℕ)
      → validate_start_options o ≡ ok tt
      → IsStartAnswer fl world o c d status
      → after ≡ log ++ sent_by o (Coordinator.begin_start fl none o c).1
      → IsOutcome o c log (d, after) status
  answer-IsOutcome o c d log after status v a grown =
      let (plan, planned, outcome) = start_run-outcomes db o v in
      record {
        when_active = λ busy.
            let (s, same) = a.when_active busy in
            (
              s,
              ap₂ (λ x y. (x, y)) same
                  (grown ∙ ap (λ sent. log ++ sent) (sent_by-active o c busy) ∙ append-nil log),
            );
        when_free = λ free.
            let sending = grown ∙ ap (λ sent. log ++ sent) (sent_by-free o c free) in
            elim outcome [
              | inl (started, all) ↦
                  let (s, r, same, _, kept) = a.when_launched plan free (ap (λ q. q.1) started) in
                  inl (s, r, same, plan, planned, kept, sending ∙ ap (λ q. log ++ q.0) started, all)
              | inr (sent, e, stopped, at) ↦
                  let (s, f, same, text, no_run) =
                    a.when_failed (wrap (codes "setup benchmark schema") e) free
                      (ap (λ q. q.1) stopped) in
                  inr
                    (s, f, same, no_run, sent, e, sending ∙ ap (λ q. log ++ q.0) stopped, at, text)
            ];
      }

  handle_start-IsOutcome :
      (r : Request) (o : StartOptions) (c : Coordinator F T Plan) (log : List Statement)
      → IsOrdinaryDatabase db
      → r.context ≡ none
      → r.start_options ≡ ok o
      → validate_start_options o ≡ ok tt
      → IsOutcome o c log
          (handle_start recorded r (c, log)).0
          (handle_start recorded r (c, log)).1.status
  handle_start-IsOutcome r o c log k x p v =
      let (same, grown, status) = handle_start-log r o c log x p in
      answer-IsOutcome o c (handle_start recorded r (c, log)).0.0 log
        (handle_start recorded r (c, log)).0.1 (handle_start recorded r (c, log)).1.status v
        (subst (λ d. IsStartAnswer fl world o c d (handle_start recorded r (c, log)).1.status)
          (sym same)
          (subst (λ n. IsStartAnswer fl world o c (handle_start (coordinated fl world) r c).0 n)
            (sym status) (handle_start-IsStartAnswer fl world r o c (world-IsOrdinary k) x p)))
        grown

  -- A POST to /benchmark/start whose body the decoder accepts, on a live context, with the runner on a
  -- database that reports no conflict of its own. While a run is active, it is answered by 409, and
  -- neither the coordinator changes nor is a statement sent. Else either it is answered by 200: exactly
  -- the setup statements for the decoded options have been sent, in order, each was executed without an
  -- error, and the run of their plan is kept and running; or it is answered by 500: the setup
  -- statements have been sent up to the first that failed, and the coordinator has failed with the
  -- compacted error of that statement and keeps no run.
  pub serve-start_runs :
      (other : Request → Response (State T) (Results F T) (MetricsSnapshot F)) (probe : Bool)
      (r : Request) (o : StartOptions) (c : Coordinator F T Plan) (log : List Statement)
      (first : Result StartPayload) (second : Option Error)
      → IsOrdinaryDatabase db
      → r.path ≡ "/benchmark/start"
      → r.method ≡ method_post
      → r.context ≡ none
      → r.start_options ≡ decode_start_options first second
      → decode_start_options first second ≡ ok o
      → IsOutcome o c log
          (serve other (some recorded) probe r (c, log)).0
          (serve other (some recorded) probe r (c, log)).1.status
  unfolding serve dispatch find_route serve_route handle handle_benchmark
  serve-start_runs other probe r o c log first second k p m x body accepted =
      let (_, _, _, valid) = (decode_start_options_iff first second o).0 accepted in
      rw (p, m)
        (handle_start-IsOutcome (record r { path = "/benchmark/start" }) o c log k x
          (body ∙ accepted) ((validate_start_options_iff o).1 valid))
