-- ===== src/Run/Coordinator/Lifecycle.antt =====
-- The life of runs under every interleaving of callers and goroutines.
use pg_gobench.Base.{ℕ, zero, suc, ◌≡◌, ◌⊎◌, true, Option, none, some, List, [], ◌∷◌, arith, Floats}
use pg_gobench.Benchmark.Options.{StartOptions}
use pg_gobench.Run.Coordinator.{
  Status, idle, starting, running, stopping, stopped, failed, State, Coordinator, is_some,
}
use pg_gobench.Run.Coordinator.System.{
  System, Event, start, launch_failed, launched, alter, stop, ended, initial, step, run,
}

-- What the fields of a state say for its status, while no run is under way.
abbrev pub IsRestingState : {T : Type 0} → State T → Status → Type 0
IsRestingState s idle = (s.started_at ≡ none) × (s.stopped_at ≡ none) × (s.error ≡ [])
IsRestingState s stopped = (is_some s.stopped_at ≡ true) × (s.error ≡ [])
IsRestingState s failed = is_some s.stopped_at ≡ true
IsRestingState s _ = ⊥

abbrev pub first : List ℕ → Option ℕ
first [] = none
first (x ∷ xs) = some x

-- One call of Start at most is inside the runner, or one goroutine waits for a run, and never both;
-- which of these it is fixes the other fields.
abbrev pub IsPhase :
    {F T R : Type 0} → Coordinator F T R → List (ℕ × StartOptions) → List (ℕ × R) → List ℕ → Type 0
IsPhase c [] [] ids = IsRestingState c.state c.state.status × (c.run ≡ none) × (c.cancel ≡ none)
IsPhase c ((id, options) ∷ []) [] ids =
    (id ≡ c.run_id)
    × (c.run ≡ none)
    × (c.cancel ≡ some id)
    × (c.state.options ≡ options)
    × (c.state.started_at ≡ none)
    × (c.state.stopped_at ≡ none)
    × (c.state.error ≡ [])
    × ((c.state.status ≡ starting) ⊎ ((c.state.status ≡ stopping) × (first ids ≡ some c.run_id)))
IsPhase c [] ((id, r) ∷ []) ids =
    (id ≡ c.run_id)
    × (c.run ≡ some r)
    × (c.cancel ≡ some id)
    × (is_some c.state.started_at ≡ true)
    × (c.state.stopped_at ≡ none)
    × (c.state.error ≡ [])
    × ((c.state.status ≡ running) ⊎ ((c.state.status ≡ stopping) × (first ids ≡ some c.run_id)))
IsPhase c _ _ ids = ⊥

module _ (fl : Floats) {T R : Type 0} where
  open fl use {F}

  abbrev pub HasPhase : System F T R → Type 0
  HasPhase s = IsPhase s.coordinator s.launching s.watched s.cancelled

  abbrev system : Coordinator F T R → List (ℕ × StartOptions) → List (ℕ × R) → List ℕ → System F T R
  system c ls ws ids = record { coordinator = c; launching = ls; watched = ws; cancelled = ids }

  -- One step from each of the three shapes that a system can have.
  resting-HasPhase :
      (c : Coordinator F T R) (ids : List ℕ) (e : Event F T R)
      → IsPhase c [] [] ids
      → HasPhase (step fl (system c [] [] ids) e)
  unfolding step
  resting-HasPhase c ids (start ctx o) h = ground arith
  resting-HasPhase c ids (alter a answer) h = ground arith
  resting-HasPhase c ids stop h = ground arith
  resting-HasPhase c ids _ h = h

  launching-HasPhase :
      (c : Coordinator F T R) (id : ℕ) (o : StartOptions) (ids : List ℕ) (e : Event F T R)
      → IsPhase c ((id, o) ∷ []) [] ids
      → HasPhase (step fl (system c ((id, o) ∷ []) [] ids) e)
  unfolding step
  launching-HasPhase c id o ids (start ctx o') h = ground arith
  launching-HasPhase c id o ids (launch_failed zero e now) h = ground arith
  launching-HasPhase c id o ids (launch_failed (suc n) e now) h = h
  launching-HasPhase c id o ids (launched zero r now) h = ground arith
  launching-HasPhase c id o ids (launched (suc n) r now) h = h
  launching-HasPhase c id o ids (alter a answer) h = ground arith
  launching-HasPhase c id o ids stop h = ground arith
  launching-HasPhase c id o ids (ended n e last now) h = h

  live-HasPhase :
      (c : Coordinator F T R) (id : ℕ) (r : R) (ids : List ℕ) (e : Event F T R)
      → IsPhase c [] ((id, r) ∷ []) ids
      → HasPhase (step fl (system c [] ((id, r) ∷ []) ids) e)
  unfolding step
  live-HasPhase c id r ids (start ctx o) h = ground arith
  live-HasPhase c id r ids (alter a answer) h = ground arith
  live-HasPhase c id r ids stop h = ground arith
  live-HasPhase c id r ids (ended zero e last now) h = ground arith
  live-HasPhase c id r ids (ended (suc n) e last now) h = h
  live-HasPhase c id r ids (launch_failed n e now) h = h
  live-HasPhase c id r ids (launched n r' now) h = h

  step-IsPhase :
      (c : Coordinator F T R) (ls : List (ℕ × StartOptions)) (ws : List (ℕ × R)) (ids : List ℕ)
      (e : Event F T R)
      → IsPhase c ls ws ids
      → HasPhase (step fl (system c ls ws ids) e)
  step-IsPhase c [] [] ids e h = resting-HasPhase c ids e h
  step-IsPhase c ((id, o) ∷ []) [] ids e h = launching-HasPhase c id o ids e h
  step-IsPhase c [] ((id, r) ∷ []) ids e h = live-HasPhase c id r ids e h
  step-IsPhase c _ _ ids e h = absurd h

  pub step-HasPhase : (s : System F T R) (e : Event F T R) → HasPhase s → HasPhase (step fl s e)
  step-HasPhase s e h = step-IsPhase s.coordinator s.launching s.watched s.cancelled e h

  pub run_from-HasPhase :
      (s : System F T R) (es : List (Event F T R)) → HasPhase s → HasPhase (run fl s es)
  unfolding run
  run_from-HasPhase s [] h = h
  run_from-HasPhase s (e ∷ es) h = run_from-HasPhase (step fl s e) es (step-HasPhase s e h)

  -- After any interleaving of starts, alters, stops and returns of the runner and the runs, one
  -- launch or one run at most is under way; its id is the coordinator's, so that no result is ever
  -- dropped as stale; and the status, the run, the cancel function, the times and the error text
  -- agree with which of the two it is. While a stop is under way, the context of that run is the
  -- last one cancelled.
  pub run-HasPhase : (es : List (Event F T R)) → HasPhase (run fl (initial fl) es)
  unfolding initial
  run-HasPhase es = run_from-HasPhase (initial fl) es (ground arith)
