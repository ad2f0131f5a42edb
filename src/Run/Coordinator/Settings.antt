-- ===== src/Run/Coordinator/Settings.antt =====
-- The options of a run: what Alter changes, and that they stay valid.
use pg_gobench.Base.{
  ℕ, zero, suc, ◌≡◌, ◌≢◌, refl, ◌⊎◌, inl, inr, ◌&&◌, Bool-cases, none, List, [], ◌∷◌, arith, Error,
  Result, ok, err, Floats, All,
}
use pg_gobench.Benchmark.Options.{StartOptions, AlterOptions, apply_alter}
use pg_gobench.Benchmark.Options.Validation.{IsValidStart}
use pg_gobench.Benchmark.Options.Altering.{apply_alter-ok_iff}
use pg_gobench.Run.Coordinator.{State, Status, idle, running, Coordinator, is_running, is_some}
use pg_gobench.Run.Coordinator
use pg_gobench.Run.Coordinator.System.{
  System, Event, start, launch_failed, launched, alter, stop, ended, initial, step, run,
}
use pg_gobench.Run.Coordinator.Lifecycle.{IsPhase, HasPhase, step-HasPhase}

Result-cases {ℓ} :
    {A : Type ℓ} (m : Result A) → ((a : A) × (m ≡ ok a)) ⊎ ((e : Error) × (m ≡ err e))
Result-cases (ok a) = inl (a, refl)
Result-cases (err e) = inr (e, refl)

module _ (fl : Floats) {T R : Type 0} where
  open fl use {F}

  -- The two outcomes of Alter: an error, with the coordinator as it was; or the options that
  -- ApplyAlter makes, in a coordinator that is otherwise as it was, with no error.
  abbrev pub Refuses : AlterOptions → Result (Unit {0}) → Coordinator F T R → Type 0
  Refuses a answer c =
      let (c', s, e) = Coordinator.alter fl a answer c in (c' ≡ c) × (s ≡ c.state) × (e ≢ none)

  abbrev pub Changes : AlterOptions → Result (Unit {0}) → Coordinator F T R → StartOptions → Type 0
  Changes a answer c o =
      let (c', s, e) = Coordinator.alter fl a answer c in
      (c.state.status ≡ running)
      × (apply_alter c.state.options a ≡ ok o)
      × (answer ≡ ok tt)
      × (c' ≡ record c { state = record c.state { options = o } })
      × (s ≡ c'.state)
      × (e ≡ none)

  -- Alter either fails and changes nothing, or the run is running, ApplyAlter and the run accept the
  -- request, and the options alone change, to what ApplyAlter makes of them.
  pub alter_outcomes :
      (a : AlterOptions) (answer : Result (Unit {0})) (c : Coordinator F T R)
      → Refuses a answer c ⊎ ((o : StartOptions) × Changes a answer c o)
  unfolding Coordinator.alter
  alter_outcomes a (err e) c = inl (ground arith, ground arith, ground arith)
  alter_outcomes a (ok tt) c = elim (Result-cases (apply_alter c.state.options a)) [
    | inl (o, e) ↦ elim (Bool-cases (is_running c.state.status && is_some c.run)) [
      | inl live ↦ inr (o, (ground arith, e, refl, ground arith, ground arith, ground arith))
      | inr dead ↦ inl (ground arith, ground arith, ground arith)
    ]
    | inr (x, e) ↦ inl (ground arith, ground arith, ground arith)
  ]

  abbrev pub OptionsHave : (StartOptions → Type 0) → System F T R → Type 0
  OptionsHave P s = (s.coordinator.state.status ≡ idle) ⊎ P s.coordinator.state.options

  -- Every caller of Start has checked its options, as DecodeStartOptions does.
  abbrev pub StartsHave : (StartOptions → Type 0) → Event F T R → Type 0
  StartsHave P (start ctx o) = P o
  StartsHave P _ = Unit

  abbrev system : Coordinator F T R → List (ℕ × StartOptions) → List (ℕ × R) → List ℕ → System F T R
  system c ls ws ids = record { coordinator = c; launching = ls; watched = ws; cancelled = ids }

  module _ (P : StartOptions → Type 0)
      (kept : (o : StartOptions) (a : AlterOptions) (o' : StartOptions)
        → apply_alter o a ≡ ok o'
        → P o') where
    alter-OptionsHave :
        (c : Coordinator F T R) (ls : List (ℕ × StartOptions)) (ws : List (ℕ × R)) (ids : List ℕ)
        (a : AlterOptions) (answer : Result (Unit {0}))
        → OptionsHave P (system c ls ws ids)
        → OptionsHave P (step fl (system c ls ws ids) (alter a answer))
    unfolding step
    alter-OptionsHave c ls ws ids a answer h = elim (alter_outcomes a answer c) [
      | inl r ↦ rw r.0 h
      | inr (o, w) ↦ rw w.3 (inr (kept _ a o w.1))
    ]

    launch-OptionsHave :
        (c : Coordinator F T R) (id : ℕ) (o : StartOptions) (ids : List ℕ) (e : Event F T R)
        → IsPhase c ((id, o) ∷ []) [] ids
        → StartsHave P e
        → OptionsHave P (system c ((id, o) ∷ []) [] ids)
        → OptionsHave P (step fl (system c ((id, o) ∷ []) [] ids) e)
    unfolding step
    launch-OptionsHave c id o ids (start ctx o') p v h = ground arith
    launch-OptionsHave c id o ids (launch_failed zero e now) p v h = ground arith
    launch-OptionsHave c id o ids (launch_failed (suc n) e now) p v h = h
    launch-OptionsHave c id o ids (launched zero r now) p v h = ground arith
    launch-OptionsHave c id o ids (launched (suc n) r now) p v h = h
    launch-OptionsHave c id o ids (alter a answer) p v h =
        alter-OptionsHave c ((id, o) ∷ []) [] ids a answer h
    launch-OptionsHave c id o ids stop p v h = ground arith
    launch-OptionsHave c id o ids (ended n e last now) p v h = h

    live-OptionsHave :
        (c : Coordinator F T R) (id : ℕ) (r : R) (ids : List ℕ) (e : Event F T R)
        → IsPhase c [] ((id, r) ∷ []) ids
        → StartsHave P e
        → OptionsHave P (system c [] ((id, r) ∷ []) ids)
        → OptionsHave P (step fl (system c [] ((id, r) ∷ []) ids) e)
    unfolding step
    live-OptionsHave c id r ids (start ctx o') p v h = ground arith
    live-OptionsHave c id r ids (launch_failed n e now) p v h = h
    live-OptionsHave c id r ids (launched n r' now) p v h = h
    live-OptionsHave c id r ids (alter a answer) p v h =
        alter-OptionsHave c [] ((id, r) ∷ []) ids a answer h
    live-OptionsHave c id r ids stop p v h = ground arith
    live-OptionsHave c id r ids (ended zero e last now) p v h = ground arith
    live-OptionsHave c id r ids (ended (suc n) e last now) p v h = h

    resting-OptionsHave :
        (c : Coordinator F T R) (ids : List ℕ) (e : Event F T R)
        → IsPhase c [] [] ids
        → StartsHave P e
        → OptionsHave P (system c [] [] ids)
        → OptionsHave P (step fl (system c [] [] ids) e)
    unfolding step
    resting-OptionsHave c ids (start ctx o') p v h = ground arith
    resting-OptionsHave c ids (alter a answer) p v h = alter-OptionsHave c [] [] ids a answer h
    resting-OptionsHave c ids stop p v h = ground arith
    resting-OptionsHave c ids _ p v h = h

    keep :
        (c : Coordinator F T R) (ls : List (ℕ × StartOptions)) (ws : List (ℕ × R)) (ids : List ℕ)
        (e : Event F T R)
        → IsPhase c ls ws ids
        → StartsHave P e
        → OptionsHave P (system c ls ws ids)
        → OptionsHave P (step fl (system c ls ws ids) e)
    keep c [] [] ids e p v h = resting-OptionsHave c ids e p v h
    keep c ((id, o) ∷ []) [] ids e p v h = launch-OptionsHave c id o ids e p v h
    keep c [] ((id, r) ∷ []) ids e p v h = live-OptionsHave c id r ids e p v h
    keep c _ _ ids e p v h = absurd p

    run_from-OptionsHave :
        (s : System F T R) (es : List (Event F T R))
        → HasPhase fl s
        → All (StartsHave P) es
        → OptionsHave P s
        → OptionsHave P (run fl s es)
    unfolding run
    run_from-OptionsHave s [] p v h = h
    run_from-OptionsHave s (e ∷ es) p v h =
        run_from-OptionsHave (step fl s e) es (step-HasPhase fl s e p) v.1
          (keep s.coordinator s.launching s.watched s.cancelled e p v.0 h)

  -- If every start comes with valid options, the options that the coordinator shows are valid after
  -- any interleaving of events, once there has been a run; alters included.
  pub run-IsValidStart :
      (es : List (Event F T R))
      → All (StartsHave IsValidStart) es
      → OptionsHave IsValidStart (run fl (initial fl) es)
  unfolding initial
  run-IsValidStart es v =
      run_from-OptionsHave IsValidStart
        (λ o a o' e. let (_, same, w) = (apply_alter-ok_iff o a o').0 e in rw same w) (initial fl)
        es (ground arith) v (inl refl)
