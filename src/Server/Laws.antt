-- ===== src/Server/Laws.antt =====
-- The laws of the interface Benchmark that the handlers rely on.
use pg_gobench.Base.{
  ℕ, ◌≤◌, ◌<◌, ◌≡◌, refl, inl, inr, arith, Bool, Option, none, some, Error, Result-cases,
}
use pg_gobench.Benchmark.Options.{StartOptions, AlterOptions}
use pg_gobench.Server.{
  Benchmark, Response, Request, status_for_benchmark_error, Route, healthz, readyz, benchmark_start,
  benchmark_alter, benchmark_stop, routes, find_route, answer, handle_start, handle_alter,
  handle_benchmark, handle, serve_route, dispatch, serve,
}

-- What a benchmark promises to the handlers: a call that it answers by a conflict, an alter that it
-- refuses and a stop that gives an error leave it as it was.
pub record IsLawful {S St Re Me : Type 0} (b : Benchmark S St Re Me) : Type 0 where
  pub start_conflict :
      (context : Option Error) (o : StartOptions) (s : S) (e : Error)
      → (b.start context o s).2 ≡ some e
      → status_for_benchmark_error e ≡ 409
      → (b.start context o s).0 ≡ s
  pub alter_refused :
      (a : AlterOptions) (s : S) (e : Error) → (b.alter a s).2 ≡ some e → (b.alter a s).0 ≡ s
  pub stop_refused : (s : S) (e : Error) → (b.stop s).2 ≡ some e → (b.stop s).0 ≡ s

-- A 4xx status.
abbrev pub IsClientError : ℕ → Type 0
IsClientError status = (400 ≤ status) × (status < 500)

-- An answer by a 4xx status leaves the state as it was.
abbrev pub Keeps : {S St Re Me : Type 0} → S → S × Response St Re Me → Type 0
Keeps s (s', response) = IsClientError response.status → s' ≡ s

answer-Keeps :
    {S St : Type 0} (Re Me : Type 0) (a : S × St × Option Error) (s : S)
    → ((e : Error) → a.2 ≡ some e → status_for_benchmark_error e ≡ 409 → a.0 ≡ s)
    → Keeps s (answer {Re = Re} {Me = Me} a)
unfolding answer status_for_benchmark_error
answer-Keeps Re Me (s', state, none) s f h = ground (arith, h)
answer-Keeps Re Me (s', state, some e) s f h = ground (arith, h, f e refl)

module _ {S St Re Me : Type 0} where
  module _ (b : Benchmark S St Re Me) (law : IsLawful b) where
    handle_start-Keeps : (r : Request) (s : S) → Keeps s (handle_start b r s)
    unfolding handle_start
    handle_start-Keeps r s = elim (Result-cases r.start_options) [
      | inl (o, e) ↦
          rw e (answer-Keeps Re Me (b.start r.context o s) s (law.start_conflict r.context o s))
      | inr (x, e) ↦ rw e (λ h. refl)
    ]

    handle_alter-Keeps : (r : Request) (s : S) → Keeps s (handle_alter b r s)
    unfolding handle_alter
    handle_alter-Keeps r s = elim (Result-cases r.alter_options) [
      | inl (a, e) ↦ rw e (answer-Keeps Re Me (b.alter a s) s (λ x p _. law.alter_refused a s x p))
      | inr (x, e) ↦ rw e (λ h. refl)
    ]

    handle_benchmark-Keeps :
        (route : Route) (r : Request) (s : S) → Keeps s (handle_benchmark route b r s)
    unfolding handle_benchmark
    handle_benchmark-Keeps benchmark_start r s = handle_start-Keeps r s
    handle_benchmark-Keeps benchmark_alter r s = handle_alter-Keeps r s
    handle_benchmark-Keeps benchmark_stop r s =
        answer-Keeps Re Me (b.stop s) s (λ x p _. law.stop_refused s x p)
    handle_benchmark-Keeps _ r s = λ h. refl

    handle-Keeps :
        (probe : Bool) (route : Route) (r : Request) (s : S)
        → Keeps s (handle (some b) probe route r s)
    unfolding handle
    handle-Keeps probe healthz r s = λ h. refl
    handle-Keeps probe readyz r s = λ h. refl
    handle-Keeps probe route r s = handle_benchmark-Keeps route r s

    serve_route-Keeps :
        (probe : Bool) (route : Route) (r : Request) (s : S)
        → Keeps s (serve_route (some b) probe route r s)
    unfolding serve_route
    serve_route-Keeps probe route r s = ground (arith, handle-Keeps probe route r s)

    dispatch-Keeps :
        (other : Request → Response St Re Me) (probe : Bool) (route : Option Route) (r : Request)
        (s : S)
        → Keeps s (dispatch other (some b) probe route r s)
    unfolding dispatch
    dispatch-Keeps other probe none r s = λ h. refl
    dispatch-Keeps other probe (some route) r s = serve_route-Keeps probe route r s

    -- A request that is answered by a 4xx status, a wrong method, a body that does not decode and a
    -- conflict among them, leaves a lawful benchmark as it was.
    pub serve-Keeps :
        (other : Request → Response St Re Me) (probe : Bool) (r : Request) (s : S)
        → Keeps s (serve other (some b) probe r s)
    unfolding serve
    serve-Keeps other probe r s = dispatch-Keeps other probe (find_route r.path routes) r s
