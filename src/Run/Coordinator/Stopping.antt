-- ===== src/Run/Coordinator/Stopping.antt =====
-- From a stop on: what any interleaving can make of the run that is being stopped.
use pg_gobench.Base.{
  ℕ, zero, suc, ◌≡◌, subst, Result, ok, err, ◌⊎◌, Bool, true, false, not, ◌||◌, Option, none, List,
  [], ◌∷◌, arith, Error, canceled, errors_is, Floats,
}
use pg_gobench.Benchmark.Options.{StartOptions}
use pg_gobench.Run.Sample.{Sample}
use pg_gobench.Run.Coordinator.{stopping, stopped, failed, State, Coordinator, is_active}
use pg_gobench.Run.Coordinator.System.{
  System, Event, start, launch_failed, launched, alter, stop, ended, step, run,
}
use pg_gobench.Run.Coordinator.Lifecycle.{IsPhase, HasPhase}
use pg_gobench.Run.Coordinator.Settling.{IsSettled}

-- Stopped without an error, or failed.
abbrev pub IsOver : {T : Type 0} → Bool → State T → Type 0
IsOver failing s =
    ((s.status ≡ stopped) × (s.error ≡ [])) ⊎ ((s.status ≡ failed) × (failing ≡ true))

-- While the launch or the run has yet to return, it is being stopped; then it is over. `failing`
-- tells whether it may have failed.
abbrev pub IsWindingDown :
    {F T R : Type 0}
    → StartOptions
    → Bool
    → Coordinator F T R
    → List (ℕ × StartOptions)
    → List (ℕ × R)
    → List ℕ
    → Type 0
IsWindingDown o failing c [] [] ids =
    IsPhase c [] [] ids × IsOver failing c.state × (c.state.options ≡ o)
IsWindingDown o failing c ls ws ids =
    IsPhase c ls ws ids × (c.state.status ≡ stopping) × (c.state.options ≡ o)

either-false : (x : Bool) → (x || false) ≡ x
either-false x = ground arith

either_order : (x y b : Bool) → (y || (x || b)) ≡ ((x || y) || b)
either_order x y b = ground arith

abbrev pub IsRunOrCancellation : {R : Type 0} → Result R → Type 0
IsRunOrCancellation (ok r) = Unit
IsRunOrCancellation (err x) = errors_is canceled x ≡ true

module _ (fl : Floats) {T R : Type 0} where
  open fl use {F}

  -- The runner's answer to the launch, when it is an error other than the cancellation.
  abbrev pub is_failure : Event F T R → Bool
  is_failure (launch_failed n e now) = not (errors_is canceled e)
  is_failure _ = false

  abbrev pub has_failure : List (Event F T R) → Bool
  has_failure [] = false
  has_failure (e ∷ es) = is_failure e || has_failure es

  -- A start that is let through.
  abbrev pub is_let_through : Coordinator F T R → Event F T R → Bool
  is_let_through c (start none o) = not (is_active c.state.status)
  is_let_through c _ = false

  -- No further run is started.
  abbrev pub IsLastRun : System F T R → List (Event F T R) → Type 0
  IsLastRun s [] = Unit
  IsLastRun s (e ∷ es) = (is_let_through s.coordinator e ≡ false) × IsLastRun (step fl s e) es

  abbrev pub WindsDown : StartOptions → Bool → System F T R → Type 0
  WindsDown o failing s = IsWindingDown o failing s.coordinator s.launching s.watched s.cancelled

  abbrev system : Coordinator F T R → List (ℕ × StartOptions) → List (ℕ × R) → List ℕ → System F T R
  system c ls ws ids = record { coordinator = c; launching = ls; watched = ws; cancelled = ids }

  over-WindsDown :
      (c : Coordinator F T R) (ids : List ℕ) (o : StartOptions) (b : Bool) (e : Event F T R)
      → IsWindingDown o b c [] [] ids
      → is_let_through c e ≡ false
      → WindsDown o (is_failure e || b) (step fl (system c [] [] ids) e)
  unfolding step
  over-WindsDown c ids o b (start ctx o') h q = ground (arith, h, q)
  over-WindsDown c ids o b (launch_failed n e now) h q = ground (arith, h)
  over-WindsDown c ids o b (launched n r now) h q = h
  over-WindsDown c ids o b (alter a answer) h q = ground (arith, h)
  over-WindsDown c ids o b stop h q = ground (arith, h)
  over-WindsDown c ids o b (ended n e last now) h q = h

  launching-WindsDown :
      (c : Coordinator F T R) (id : ℕ) (p : StartOptions) (ids : List ℕ) (o : StartOptions)
      (b : Bool) (e : Event F T R)
      → IsWindingDown o b c ((id, p) ∷ []) [] ids
      → WindsDown o (is_failure e || b) (step fl (system c ((id, p) ∷ []) [] ids) e)
  unfolding step
  launching-WindsDown c id p ids o b (start ctx o') h = ground (arith, h)
  launching-WindsDown c id p ids o b (launch_failed zero e now) h = ground (arith, h)
  launching-WindsDown c id p ids o b (launch_failed (suc n) e now) h = h
  launching-WindsDown c id p ids o b (launched zero r now) h = ground (arith, h)
  launching-WindsDown c id p ids o b (launched (suc n) r now) h = h
  launching-WindsDown c id p ids o b (alter a answer) h = ground (arith, h)
  launching-WindsDown c id p ids o b stop h = ground (arith, h)
  launching-WindsDown c id p ids o b (ended n e last now) h = h

  live-WindsDown :
      (c : Coordinator F T R) (id : ℕ) (r : R) (ids : List ℕ) (o : StartOptions) (b : Bool)
      (e : Event F T R)
      → IsWindingDown o b c [] ((id, r) ∷ []) ids
      → WindsDown o (is_failure e || b) (step fl (system c [] ((id, r) ∷ []) ids) e)
  unfolding step
  live-WindsDown c id r ids o b (start ctx o') h = ground (arith, h)
  live-WindsDown c id r ids o b (launch_failed n e now) h = h
  live-WindsDown c id r ids o b (launched n q now) h = h
  live-WindsDown c id r ids o b (alter a answer) h = ground (arith, h)
  live-WindsDown c id r ids o b stop h = ground (arith, h)
  live-WindsDown c id r ids o b (ended zero e last now) h = ground (arith, h)
  live-WindsDown c id r ids o b (ended (suc n) e last now) h = h

  step-WindsDown :
      (c : Coordinator F T R) (ls : List (ℕ × StartOptions)) (ws : List (ℕ × R)) (ids : List ℕ)
      (o : StartOptions) (b : Bool) (e : Event F T R)
      → IsWindingDown o b c ls ws ids
      → is_let_through c e ≡ false
      → WindsDown o (is_failure e || b) (step fl (system c ls ws ids) e)
  step-WindsDown c [] [] ids o b e h q = over-WindsDown c ids o b e h q
  step-WindsDown c ((id, p) ∷ []) [] ids o b e h q = launching-WindsDown c id p ids o b e h
  step-WindsDown c [] ((id, r) ∷ []) ids o b e h q = live-WindsDown c id r ids o b e h
  step-WindsDown c (_ ∷ _ ∷ _) ws ids o b e h q = absurd h.0
  step-WindsDown c (_ ∷ []) (_ ∷ _) ids o b e h q = absurd h.0
  step-WindsDown c [] (_ ∷ _ ∷ _) ids o b e h q = absurd h.0

  run-WindsDown :
      (s : System F T R) (es : List (Event F T R)) (o : StartOptions) (b : Bool)
      → WindsDown o b s
      → IsLastRun s es
      → WindsDown o (has_failure es || b) (run fl s es)
  unfolding run
  run-WindsDown s [] o b h q = h
  run-WindsDown s (e ∷ es) o b h q =
      subst (λ d. WindsDown o d (run fl (step fl s e) es))
        (either_order (is_failure e) (has_failure es) b)
        (run-WindsDown (step fl s e) es o (is_failure e || b)
          (step-WindsDown s.coordinator s.launching s.watched s.cancelled o b e h q.0) q.1)

  stop_at :
      (c : Coordinator F T R) (ls : List (ℕ × StartOptions)) (ws : List (ℕ × R)) (ids : List ℕ)
      → IsPhase c ls ws ids
      → is_active c.state.status ≡ true
      → WindsDown c.state.options false (step fl (system c ls ws ids) stop)
  unfolding step
  stop_at c [] [] ids h a = ground (arith, h, a)
  stop_at c ((id, o) ∷ []) [] ids h a = ground (arith, h, a)
  stop_at c [] ((id, r) ∷ []) ids h a = ground (arith, h, a)
  stop_at c _ _ ids h a = absurd h

  -- The launch returns, with a run or with the cancellation, and then the run, if there is one, with
  -- any error or none.
  abbrev pub launch_returns : Result R → T → Event F T R
  launch_returns (ok r) now = launched 0 r now
  launch_returns (err x) now = launch_failed 0 x now

  returns_at :
      (c : Coordinator F T R) (ls : List (ℕ × StartOptions)) (ws : List (ℕ × R)) (ids : List ℕ)
      (o : StartOptions) (b : Bool) (answer : Result R) (now : T) (e : Option Error)
      (last : Sample F) (later : T)
      → IsWindingDown o b c ls ws ids
      → is_active c.state.status ≡ true
      → IsRunOrCancellation answer
      → IsSettled fl o
          (run fl (system c ls ws ids) (launch_returns answer now ∷ ended 0 e last later ∷ []))
  unfolding run step
  returns_at c [] [] ids o b answer now e last later h a k = ground (arith, h, a)
  returns_at c ((id, p) ∷ []) [] ids o b (ok r) now e last later h a k = ground (arith, h)
  returns_at c ((id, p) ∷ []) [] ids o b (err x) now e last later h a k = ground (arith, h, k)
  returns_at c [] ((id, q) ∷ []) ids o b (ok r) now e last later h a k = ground (arith, h)
  returns_at c [] ((id, q) ∷ []) ids o b (err x) now e last later h a k = ground (arith, h)
  returns_at c (_ ∷ _ ∷ _) ws ids o b answer now e last later h a k = absurd h.0
  returns_at c (_ ∷ []) (_ ∷ _) ids o b answer now e last later h a k = absurd h.0
  returns_at c [] (_ ∷ _ ∷ _) ids o b answer now e last later h a k = absurd h.0

  -- A run that is starting, running or stopping is told to stop, and then anything happens, in any
  -- order, but no further run is started. As long as its launch or the run itself has yet to return,
  -- the coordinator is stopping and keeps the options; and if the launch then returns with a run or
  -- with the cancellation, and the run with any error or none, the coordinator is stopped, with no
  -- error text and nothing left behind. Once nothing is left, it keeps the
  -- options and is stopped with no error text; or it has failed, and then the return of a launch with
  -- an error other than the cancellation is among the events.
  pub stop-WindsDown :
      (s : System F T R) (es : List (Event F T R)) (answer : Result R) (now : T) (e : Option Error)
      (last : Sample F) (later : T)
      → HasPhase fl s
      → is_active s.coordinator.state.status ≡ true
      → IsLastRun (step fl s stop) es
      → IsRunOrCancellation answer
      → WindsDown s.coordinator.state.options (has_failure es) (run fl (step fl s stop) es)
        × (is_active (run fl (step fl s stop) es).coordinator.state.status ≡ true
            → IsSettled fl s.coordinator.state.options (
                run fl
                  (run fl (step fl s stop) es)
                  (launch_returns answer now ∷ ended 0 e last later ∷ [])))
  stop-WindsDown s es answer now e last later h a q k =
      let o = s.coordinator.state.options in
      let u = run fl (step fl s stop) es in
      let w : WindsDown o (has_failure es) u =
        subst (λ d. WindsDown o d u) (either-false (has_failure es))
          (run-WindsDown (step fl s stop) es o false
            (stop_at s.coordinator s.launching s.watched s.cancelled h a) q) in
      (
        w,
        λ active.
            returns_at u.coordinator u.launching u.watched u.cancelled o (has_failure es) answer now
              e last later w active k,
      )
