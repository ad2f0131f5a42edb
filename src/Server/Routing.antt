-- ===== src/Server/Routing.antt =====
-- What requests do to the benchmark, and how they are answered.
use pg_gobench.Base.{
  ◌≡◌, ◌≢◌, refl, ◌↔◌, ◌⊎◌, arith, Bool, true, Option, none, some, eq_iff, Error, Floats, sentinel,
  canceled, deadline_exceeded, errors_is, Result, ok, err,
}
use pg_gobench.Benchmark.Options.{StartOptions}
use pg_gobench.Run.Coordinator.{Coordinator, State, begin_start, refused, is_active}
use pg_gobench.Server.{
  method_post, Benchmark, Response, Request, status_for_benchmark_error, Route, routes, find_route,
  answer, handle_start, handle_benchmark, handle, serve_route, dispatch, serve,
}

-- The options are decoded, and the function gives no error on them.
abbrev pub IsStartedBy : Result StartOptions → (StartOptions → Option Error) → Type 0
IsStartedBy (err e) f = ⊥
IsStartedBy (ok options) f = f options ≡ none

module _ {S St Re Me : Type 0} where
  serve_route-post :
      (deps : Option (Benchmark S St Re Me)) (probe : Bool) (route : Route) (r : Request) (s : S)
      → r.method ≢ method_post
      → (serve_route deps probe route r s).0 ≡ s
  unfolding serve_route handle handle_benchmark
  serve_route-post none probe route r s h = ground (arith, h, eq_iff r.method method_post)
  serve_route-post (some b) probe route r s h = ground (arith, h, eq_iff r.method method_post)

  dispatch-post :
      (other : Request → Response St Re Me) (deps : Option (Benchmark S St Re Me)) (probe : Bool)
      (route : Option Route) (r : Request) (s : S)
      → r.method ≢ method_post
      → (dispatch other deps probe route r s).0 ≡ s
  unfolding dispatch
  dispatch-post other deps probe none r s h = refl
  dispatch-post other deps probe (some route) r s h = serve_route-post deps probe route r s h

  -- A request with another method than POST leaves the benchmark as it was, whatever its path.
  pub serve-only_post_changes :
      (other : Request → Response St Re Me) (deps : Option (Benchmark S St Re Me)) (probe : Bool)
      (r : Request) (s : S)
      → r.method ≢ method_post
      → (serve other deps probe r s).0 ≡ s
  unfolding serve
  serve-only_post_changes other deps probe r s h =
      dispatch-post other deps probe (find_route r.path routes) r s h

  handle_start-accepts_iff :
      (b : Benchmark S St Re Me) (r : Request) (s : S)
      → ((handle_start b r s).1.status ≡ 200)
        ↔ IsStartedBy r.start_options (λ options. (b.start r.context options s).2)
  unfolding handle_start answer status_for_benchmark_error
  handle_start-accepts_iff b r s = ground arith

  -- A POST to /benchmark/start is answered by 200 exactly when its body decodes to options that the
  -- benchmark starts a run with.
  pub serve-start_accepts_iff :
      (other : Request → Response St Re Me) (b : Benchmark S St Re Me) (probe : Bool) (r : Request)
      (s : S)
      → r.path ≡ "/benchmark/start"
      → r.method ≡ method_post
      → ((serve other (some b) probe r s).1.status ≡ 200)
        ↔ IsStartedBy r.start_options (λ options. (b.start r.context options s).2)
  unfolding serve dispatch find_route serve_route handle handle_benchmark
  serve-start_accepts_iff other b probe r s p m =
      rw (p, m) (handle_start-accepts_iff b (record r { path = "/benchmark/start" }) s)

-- What ctx.Err() can be.
abbrev pub IsContextError : Option Error → Type 0
IsContextError e =
    (e ≡ none) ⊎ ((e ≡ some (sentinel canceled)) ⊎ (e ≡ some (sentinel deadline_exceeded)))

-- The answer to a start that the coordinator refuses at once is 409 exactly when a run is active
-- and the request is not over.
pub refused_start-conflict_iff :
    (fl : Floats) {T R : Type 0} (context : Option Error) (o : StartOptions)
    (c : Coordinator fl.F T R) (state : State T) (e : Error)
    → IsContextError context
    → (begin_start fl context o c).1 ≡ refused state e
    → (status_for_benchmark_error e ≡ 409) ↔ ((context ≡ none) × (is_active c.state.status ≡ true))
unfolding begin_start status_for_benchmark_error errors_is
refused_start-conflict_iff fl none o c state e k h = ground (arith, h)
refused_start-conflict_iff fl (some x) o c state e k h = ground (arith, k, h)
