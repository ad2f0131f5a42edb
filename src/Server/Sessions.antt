-- ===== src/Server/Sessions.antt =====
-- Requests as events of the coordinator's system: which events a request stands for, by its method,
-- its path and its body, and that the server does just these.
use pg_gobench.Base.{
  ℕ, ◌≡◌, refl, subst, inl, inr, arith, Bool, true, false, Bool-cases, Option, none, some, List, [],
  ◌∷◌, Error, Result, ok, err, Result-cases, Floats, str_eq, eq_iff, if◌then◌else◌,
}
use pg_gobench.Benchmark.Options.{StartOptions, AlterOptions}
use pg_gobench.Run.Sample.{MetricsSnapshot}
use pg_gobench.Run.Coordinator
use pg_gobench.Run.Coordinator.{Coordinator, State, Results}
use pg_gobench.Run.Coordinator.System.{
  System, Event, start, launch_failed, launched, alter, stop, step, run,
}
use pg_gobench.Server.{
  method_options, route_method, Response, Request, Route, benchmark_start, benchmark_alter,
  benchmark_stop, routes, find_route, answer, handle_start, handle_alter, handle_benchmark, handle,
  serve_route, dispatch, serve,
}
use pg_gobench.Server.Coordinated.{World, coordinated, start_alone}

module _ (fl : Floats) {T R : Type 0} (w : World fl.F T R) where
  open fl use {F}
  open w use {launch, alter_answer, live, now}

  -- The return of the runner.
  abbrev pub returned : Result R → Event F T R
  returned (ok r) = launched 0 r now
  returned (err e) = launch_failed 0 e now

  abbrev pub start_events : Option Error → Result StartOptions → List (Event F T R)
  start_events context (err e) = []
  start_events context (ok o) = start context o ∷ returned (launch o) ∷ []

  abbrev pub alter_events : Result AlterOptions → List (Event F T R)
  alter_events (err e) = []
  alter_events (ok a) = alter a alter_answer ∷ []

  -- A POST to one of three paths, with a body that decodes, where there is one; else nothing.
  pub events_of : Request → List (Event F T R)
  events_of r =
      if str_eq r.method "POST"
      then (if str_eq r.path "/benchmark/start"
          then start_events r.context r.start_options
          else if str_eq r.path "/benchmark/alter"
          then alter_events r.alter_options
          else if str_eq r.path "/benchmark/stop"
          then stop ∷ []
          else [])
      else []

  -- The events lead from the system to the coordinator, with no launch inside the runner.
  abbrev pub Leads : System F T R → List (Event F T R) → Coordinator F T R → Type 0
  Leads s es d = ((run fl s es).coordinator ≡ d) × ((run fl s es).launching ≡ [])

  abbrev system : Coordinator F T R → List (ℕ × StartOptions) → List (ℕ × R) → List ℕ → System F T R
  system c ls ws ids = record { coordinator = c; launching = ls; watched = ws; cancelled = ids }

  start-Leads :
      (c : Coordinator F T R) (ls : List (ℕ × StartOptions)) (ws : List (ℕ × R)) (ids : List ℕ)
      (context : Option Error) (o : StartOptions)
      → ls ≡ []
      → Leads (system c ls ws ids) (start_events context (ok o)) (start_alone fl w context o c).0
  unfolding run step start_alone
  start-Leads c [] ws ids context o n = elim (Result-cases (launch o)) [
    | inl (r, l) ↦ ground (arith, l)
    | inr (e, l) ↦ ground (arith, l)
  ]
  start-Leads c (l ∷ ls) ws ids context o n = absurd (cc)

  module _ (s : System F T R) (n : s.launching ≡ []) where
    stays : Leads s [] s.coordinator
    unfolding run
    stays = (refl, n)

    answer-Leads :
        (es : List (Event F T R)) (a : Coordinator F T R × State T × Option Error)
        → Leads s es a.0
        → Leads s es (answer {Re = Results F T} {Me = MetricsSnapshot F} a).0
    unfolding answer
    answer-Leads es (d, state, none) h = h
    answer-Leads es (d, state, some e) h = h

    handle_start-Leads :
        (r : Request)
        → Leads s
            (start_events r.context r.start_options)
            (handle_start (coordinated fl w) r s.coordinator).0
    unfolding handle_start coordinated
    handle_start-Leads r = elim (Result-cases r.start_options) [
      | inl (o, e) ↦ rw e (
          answer-Leads (start_events r.context (ok o)) (start_alone fl w r.context o s.coordinator)
            (start-Leads s.coordinator s.launching s.watched s.cancelled r.context o n))
      | inr (x, e) ↦ rw e stays
    ]

    handle_alter-Leads :
        (r : Request)
        → Leads s (alter_events r.alter_options) (handle_alter (coordinated fl w) r s.coordinator).0
    unfolding handle_alter coordinated run step
    handle_alter-Leads r = elim (Result-cases r.alter_options) [
      | inl (a, e) ↦ rw e (
          answer-Leads (alter a alter_answer ∷ [])
            (Coordinator.alter fl a alter_answer s.coordinator) (refl, n))
      | inr (x, e) ↦ rw e stays
    ]

    -- The events of a request whose method is that of its route.
    route_events : Request → Route → List (Event F T R)
    route_events r benchmark_start = start_events r.context r.start_options
    route_events r benchmark_alter = alter_events r.alter_options
    route_events r benchmark_stop = stop ∷ []
    route_events r _ = []

    handle-Leads :
        (probe : Bool) (route : Route) (r : Request)
        → Leads s
            (route_events r route)
            (handle (some (coordinated fl w)) probe route r s.coordinator).0
    unfolding handle handle_benchmark coordinated run step route_events
    handle-Leads probe benchmark_start r = handle_start-Leads r
    handle-Leads probe benchmark_alter r = handle_alter-Leads r
    handle-Leads probe benchmark_stop r =
        let (d, state, _) = Coordinator.stop fl s.coordinator in
        answer-Leads (stop ∷ []) (d, state, none) (refl, n)
    handle-Leads probe _ r = stays

    -- Those of a request with any method.
    method_events : Request → Route → List (Event F T R)
    unfolding route_events
    method_events r route = if str_eq r.method "POST" then route_events r route else []

    right_method :
        (r : Request) (route : Route)
        → str_eq r.method (route_method route) ≡ true
        → method_events r route ≡ route_events r route
    unfolding method_events route_events
    right_method r benchmark_start g = rw g refl
    right_method r benchmark_alter g = rw g refl
    right_method r benchmark_stop g = rw g refl
    right_method r _ g = ground arith

    wrong_method :
        (r : Request) (route : Route)
        → str_eq r.method (route_method route) ≡ false
        → method_events r route ≡ []
    unfolding method_events route_events
    wrong_method r benchmark_start g = rw g refl
    wrong_method r benchmark_alter g = rw g refl
    wrong_method r benchmark_stop g = rw g refl
    wrong_method r _ g = ground arith

    options_method :
        (r : Request) (route : Route)
        → str_eq r.method "OPTIONS" ≡ true
        → method_events r route ≡ []
    unfolding method_events
    options_method r route o = rw ((eq_iff r.method "OPTIONS").0 o) refl

    serve_route-Leads :
        (probe : Bool) (route : Route) (r : Request)
        → Leads s
            (method_events r route)
            (serve_route (some (coordinated fl w)) probe route r s.coordinator).0
    unfolding serve_route
    serve_route-Leads probe route r = elim (Bool-cases (str_eq r.method method_options)) [
      | inl o ↦ rw (options_method r route o, o) stays
      | inr o ↦ elim (Bool-cases (str_eq r.method (route_method route))) [
        | inl g ↦ rw (right_method r route g, o, g) (handle-Leads probe route r)
        | inr g ↦ rw (wrong_method r route g, o, g) stays
      ]
    ]

    dispatch_events : Request → Option Route → List (Event F T R)
    unfolding method_events
    dispatch_events r none = []
    dispatch_events r (some route) = method_events r route

    dispatch-Leads :
        (other : Request → Response (State T) (Results F T) (MetricsSnapshot F)) (probe : Bool)
        (route : Option Route) (r : Request)
        → Leads s
            (dispatch_events r route)
            (dispatch other (some (coordinated fl w)) probe route r s.coordinator).0
    unfolding dispatch dispatch_events
    dispatch-Leads other probe none r = stays
    dispatch-Leads other probe (some route) r = serve_route-Leads probe route r

    events_of-routed : (r : Request) → dispatch_events r (find_route r.path routes) ≡ events_of r
    unfolding dispatch_events method_events route_events events_of find_route
    events_of-routed r = elim (Bool-cases (str_eq r.path "/benchmark/start")) [
      | inl e ↦ rw ((eq_iff r.path "/benchmark/start").0 e) refl
      | inr e ↦ elim (Bool-cases (str_eq r.path "/benchmark/alter")) [
        | inl f ↦ rw ((eq_iff r.path "/benchmark/alter").0 f) refl
        | inr f ↦ elim (Bool-cases (str_eq r.path "/benchmark/stop")) [
          | inl g ↦ rw ((eq_iff r.path "/benchmark/stop").0 g) refl
          | inr g ↦ ground (arith, e, f, g)
        ]
      ]
    ]

    -- While no launch is inside the runner, a request changes the coordinator as the events that it
    -- stands for change it, and in no other way: a POST to /benchmark/start whose body decodes starts
    -- and returns from the runner, one to /benchmark/alter whose body decodes alters, one to
    -- /benchmark/stop stops; any other method, path or body does nothing.
    pub serve-Leads :
        (other : Request → Response (State T) (Results F T) (MetricsSnapshot F)) (probe : Bool)
        (r : Request)
        → Leads s (events_of r) (serve other (some (coordinated fl w)) probe r s.coordinator).0
    unfolding serve
    serve-Leads other probe r =
        subst (λ es. Leads s es (serve other (some (coordinated fl w)) probe r s.coordinator).0)
          (events_of-routed r) (dispatch-Leads other probe (find_route r.path routes) r)
