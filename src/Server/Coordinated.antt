-- ===== src/Server/Coordinated.antt =====
-- The coordinator behind the server: its calls as the interface Benchmark, for requests that come
-- one after the other. What the runner and the run answer, the live sample and the clock are
-- arguments.
use pg_gobench.Base.{
  ℕ, ◌≡◌, refl, arith, Bool, true, false, Option, none, some, Error, errors_is, message, Result, ok,
  err, Floats,
}
use pg_gobench.Benchmark.Options.{StartOptions}
use pg_gobench.Run.ErrorText.{compact_error_text}
use pg_gobench.Run.Sample.{Sample, MetricsSnapshot}
use pg_gobench.Run.Coordinator
use pg_gobench.Run.Coordinator.{
  Coordinator, State, Results, Begin, refused, begun, is_active, is_running, is_some, running,
  failed,
}
use pg_gobench.Server.{
  method_post, Benchmark, Response, Request, status_for_benchmark_error, find_route, answer,
  handle_start, handle_benchmark, handle, serve_route, dispatch, serve,
}
use pg_gobench.Server.Laws.{IsLawful, IsClientError, serve-Keeps}

-- What the world answers to the coordinator: runner.Start on its options, run.Alter, run.Sample and
-- the clock.
pub record World (F T R : Type 0) : Type 0 where
  pub launch : StartOptions → Result R
  pub alter_answer : Result (Unit {0})
  pub live : Sample F
  pub now : T

module _ (fl : Floats) {T R : Type 0} (w : World fl.F T R) where
  open fl use {F}
  open w use {launch, alter_answer, live, now}

  unfoldable pub finish_launch :
      StartOptions → ℕ → Result R → Coordinator F T R → Coordinator F T R × State T × Option Error
  unfolding Coordinator.finish_start Coordinator.finish_start_failure
  finish_launch o id (ok r) c =
      let (d, state, _) = Coordinator.finish_start fl id r now c in (d, state, none)
  finish_launch o id (err e) c =
      let (d, state, x) = Coordinator.finish_start_failure fl id o e now c in (d, state, some x)

  unfoldable pub go_on :
      StartOptions → Coordinator F T R × Begin T → Coordinator F T R × State T × Option Error
  unfolding finish_launch
  go_on o (c, refused state e) = (c, state, some e)
  go_on o (c, begun id) = finish_launch o id (launch o) c

  -- Start, with no other call while it is in the runner.
  unfoldable pub start_alone :
      Option Error → StartOptions → Coordinator F T R → Coordinator F T R × State T × Option Error
  unfolding go_on Coordinator.begin_start
  start_alone context o c = go_on o (Coordinator.begin_start fl context o c)

  unfoldable pub coordinated :
      Benchmark (Coordinator F T R) (State T) (Results F T) (MetricsSnapshot F)
  unfolding start_alone Coordinator.alter Coordinator.stop Coordinator.results Coordinator.metrics
  coordinated = record {
    start = start_alone;
    alter = λ a c. Coordinator.alter fl a alter_answer c;
    stop = λ c. let (d, state, _) = Coordinator.stop fl c in (d, state, none);
    state = λ c. c.state;
    results = λ c. Coordinator.results fl live c;
    metrics = λ c. Coordinator.metrics fl live c;
  }

  -- The runner's errors are neither of the two that stand for a conflict.
  abbrev pub IsOrdinary : Type 0
  IsOrdinary =
      (o : StartOptions) (e : Error) → launch o ≡ err e → status_for_benchmark_error e ≡ 500

  finish_launch-error :
      (o : StartOptions) (id : ℕ) (r : Result R) (c : Coordinator F T R) (e : Error)
      → (finish_launch o id r c).2 ≡ some e
      → r ≡ err e
  unfolding finish_launch Coordinator.finish_start_failure
  finish_launch-error o id (ok r) c e h = cc
  finish_launch-error o id (err x) c e h = ground (arith, h)

  go_on-conflict :
      IsOrdinary
      → (o : StartOptions) (b : Coordinator F T R × Begin T) (c : Coordinator F T R) (e : Error)
      → (((state : State T) × (x : Error) × (b.1 ≡ refused state x)) → b.0 ≡ c)
      → (go_on o b).2 ≡ some e
      → status_for_benchmark_error e ≡ 409
      → (go_on o b).0 ≡ c
  unfolding go_on
  go_on-conflict k o (d, refused state x) c e f h s = f (state, x, refl)
  go_on-conflict k o (d, begun id) c e f h s =
      let p = k o e (finish_launch-error o id (launch o) d e h) in ground (arith, p, s)

  begin_start-refuses :
      (context : Option Error) (o : StartOptions) (c : Coordinator F T R)
      → ((state : State T) × (x : Error) × ((Coordinator.begin_start fl context o c).1
            ≡ refused state x))
      → (Coordinator.begin_start fl context o c).0 ≡ c
  unfolding Coordinator.begin_start
  begin_start-refuses context o c (state, x, h) = ground (arith, h)

  pub coordinated-IsLawful : IsOrdinary → IsLawful coordinated
  unfolding coordinated start_alone
  coordinated-IsLawful k = record {
    start_conflict = λ context o c e h p.
        go_on-conflict k o (Coordinator.begin_start fl context o c) c e
          (begin_start-refuses context o c) h p;
    alter_refused = λ a c e h. ground (arith, h);
    stop_refused = λ c e h. cc;
  }

  -- Behind a coordinator whose runner reports no conflict of its own, a request that is answered by
  -- a 4xx status, whatever its path, method and body, leaves the coordinator exactly as it was.
  pub serve-client_error_keeps :
      (other : Request → Response (State T) (Results F T) (MetricsSnapshot F)) (probe : Bool)
      (r : Request) (c : Coordinator F T R)
      → IsOrdinary
      → IsClientError (serve other (some coordinated) probe r c).1.status
      → (serve other (some coordinated) probe r c).0 ≡ c
  serve-client_error_keeps other probe r c k h =
      serve-Keeps coordinated (coordinated-IsLawful k) other probe r c h

  -- What a start that decodes to the options comes to.
  pub record IsStartAnswer (o : StartOptions) (c d : Coordinator F T R) (status : ℕ) : Type 0 where
    pub when_active : is_active c.state.status ≡ true → (status ≡ 409) × (d ≡ c)
    pub when_launched :
        (run : R)
        → is_active c.state.status ≡ false
        → launch o ≡ ok run
        → (status ≡ 200)
          × (d.state.status ≡ running)
          × (d.state.options ≡ o)
          × (d.state.started_at ≡ some now)
          × (d.run ≡ some run)
    pub when_failed :
        (e : Error)
        → is_active c.state.status ≡ false
        → launch o ≡ err e
        → (status ≡ 500)
          × (d.state.status ≡ failed)
          × (d.state.options ≡ o)
          × (d.state.error ≡ compact_error_text (message e))
          × (d.run ≡ none)

  pub handle_start-IsStartAnswer :
      (r : Request) (o : StartOptions) (c : Coordinator F T R)
      → IsOrdinary
      → r.context ≡ none
      → r.start_options ≡ ok o
      → IsStartAnswer o c (handle_start coordinated r c).0 (handle_start coordinated r c).1.status
  unfolding coordinated start_alone go_on finish_launch Coordinator.begin_start
      Coordinator.finish_start Coordinator.finish_start_failure handle_start answer errors_is
      status_for_benchmark_error
  handle_start-IsStartAnswer r o c k x p =
      rw (x, p)
        record {
          when_active = λ a. ground (arith, a);
          when_launched = λ run a l. ground (arith, a, l);
          when_failed = λ e a l. ground (arith, a, l, k o e l);
        }

  -- A POST to /benchmark/start whose body decodes to options and whose context is alive, behind a
  -- coordinator whose runner reports no conflict of its own: while a run is active it is answered
  -- by 409 and changes nothing; else, if the runner starts a run, by 200, and the run is kept, with
  -- the status running, the options of the body and the start time; and if the runner fails, by
  -- 500, and the coordinator has failed with the compacted error and keeps no run.
  pub serve-start_outcomes :
      (other : Request → Response (State T) (Results F T) (MetricsSnapshot F)) (probe : Bool)
      (r : Request) (o : StartOptions) (c : Coordinator F T R)
      → IsOrdinary
      → r.path ≡ "/benchmark/start"
      → r.method ≡ method_post
      → r.context ≡ none
      → r.start_options ≡ ok o
      → IsStartAnswer o c
          (serve other (some coordinated) probe r c).0
          (serve other (some coordinated) probe r c).1.status
  unfolding serve dispatch find_route serve_route handle handle_benchmark
  serve-start_outcomes other probe r o c k p m x q =
      rw (p, m) (handle_start-IsStartAnswer (record r { path = "/benchmark/start" }) o c k x q)
