-- ===== src/Run/Coordinator/Diagram.antt =====
-- The stages that the coordinator goes through, with exactly the moves there are between them.
use pg_gobench.Base.{
  ℕ, zero, suc, ◌≡◌, refl, subst, ◌∙◌, ◌↔◌, ◌⊎◌, inl, inr, none, some, List, [], ◌∷◌, arith, plain,
  sentinel, canceled, errors_is, Floats,
}
use pg_gobench.Benchmark.Options.{StartOptions}
use pg_gobench.Run.Sample.{zero_sample}
use pg_gobench.Run.Coordinator.{
  Status, idle, starting, running, stopping, stopped, failed, Coordinator, zero_options,
}
use pg_gobench.Run.Coordinator.System.{
  System, Event, start, launch_failed, launched, alter, stop, ended, step,
}
use pg_gobench.Run.Coordinator.Lifecycle.{IsPhase, HasPhase}

-- A run that is being stopped is aborting while its launch is inside the runner, and then halting.
pub data Stage : Type 0 where
  at_idle at_starting at_running at_aborting at_halting at_stopped at_failed : Stage

abbrev pub stage_of : Status → List (ℕ × StartOptions) → Stage
stage_of idle ls = at_idle
stage_of starting ls = at_starting
stage_of running ls = at_running
stage_of stopping [] = at_halting
stage_of stopping (l ∷ ls) = at_aborting
stage_of stopped ls = at_stopped
stage_of failed ls = at_failed

abbrev pub Moves : Stage → Stage → Type 0
Moves at_idle at_starting = Unit
Moves at_stopped at_starting = Unit
Moves at_failed at_starting = Unit
Moves at_starting at_running = Unit
Moves at_starting at_failed = Unit
Moves at_starting at_aborting = Unit
Moves at_aborting at_halting = Unit
Moves at_aborting at_stopped = Unit
Moves at_aborting at_failed = Unit
Moves at_running at_halting = Unit
Moves at_running at_stopped = Unit
Moves at_running at_failed = Unit
Moves at_halting at_stopped = Unit
Moves _ _ = ⊥

module _ (fl : Floats) {T R : Type 0} where
  open fl use {F}

  abbrev pub stage : System F T R → Stage
  stage s = stage_of s.coordinator.state.status s.launching

  abbrev system : Coordinator F T R → List (ℕ × StartOptions) → List (ℕ × R) → List ℕ → System F T R
  system c ls ws ids = record { coordinator = c; launching = ls; watched = ws; cancelled = ids }

  abbrev Keeps : System F T R → System F T R → Type 0
  Keeps s t = (stage s ≡ stage t) ⊎ Moves (stage s) (stage t)

  resting-Keeps :
      (c : Coordinator F T R) (ids : List ℕ) (e : Event F T R)
      → IsPhase c [] [] ids
      → Keeps (system c [] [] ids) (step fl (system c [] [] ids) e)
  unfolding step
  resting-Keeps c ids (start ctx o) h = ground arith
  resting-Keeps c ids (alter a answer) h = ground arith
  resting-Keeps c ids stop h = ground arith
  resting-Keeps c ids _ h = inl refl

  launching-Keeps :
      (c : Coordinator F T R) (id : ℕ) (o : StartOptions) (ids : List ℕ) (e : Event F T R)
      → IsPhase c ((id, o) ∷ []) [] ids
      → Keeps (system c ((id, o) ∷ []) [] ids) (step fl (system c ((id, o) ∷ []) [] ids) e)
  unfolding step
  launching-Keeps c id o ids (start ctx o') h = ground arith
  launching-Keeps c id o ids (launch_failed zero e now) h = ground arith
  launching-Keeps c id o ids (launch_failed (suc n) e now) h = inl refl
  launching-Keeps c id o ids (launched zero r now) h = ground arith
  launching-Keeps c id o ids (launched (suc n) r now) h = inl refl
  launching-Keeps c id o ids (alter a answer) h = ground arith
  launching-Keeps c id o ids stop h = ground arith
  launching-Keeps c id o ids (ended n e last now) h = inl refl

  live-Keeps :
      (c : Coordinator F T R) (id : ℕ) (r : R) (ids : List ℕ) (e : Event F T R)
      → IsPhase c [] ((id, r) ∷ []) ids
      → Keeps (system c [] ((id, r) ∷ []) ids) (step fl (system c [] ((id, r) ∷ []) ids) e)
  unfolding step
  live-Keeps c id r ids (start ctx o) h = ground arith
  live-Keeps c id r ids (alter a answer) h = ground arith
  live-Keeps c id r ids stop h = ground arith
  live-Keeps c id r ids (ended zero e last now) h = ground arith
  live-Keeps c id r ids (ended (suc n) e last now) h = inl refl
  live-Keeps c id r ids (launch_failed n e now) h = inl refl
  live-Keeps c id r ids (launched n r' now) h = inl refl

  step-Keeps :
      (c : Coordinator F T R) (ls : List (ℕ × StartOptions)) (ws : List (ℕ × R)) (ids : List ℕ)
      (e : Event F T R)
      → IsPhase c ls ws ids
      → Keeps (system c ls ws ids) (step fl (system c ls ws ids) e)
  step-Keeps c [] [] ids e h = resting-Keeps c ids e h
  step-Keeps c ((id, o) ∷ []) [] ids e h = launching-Keeps c id o ids e h
  step-Keeps c [] ((id, r) ∷ []) ids e h = live-Keeps c id r ids e h
  step-Keeps c _ _ ids e h = absurd h

  -- An event for each move, and one that changes nothing for all else.
  abbrev event_for : R → T → Stage → Stage → Event F T R
  event_for r now at_idle at_starting = start none zero_options
  event_for r now at_stopped at_starting = start none zero_options
  event_for r now at_failed at_starting = start none zero_options
  event_for r now at_starting at_running = launched 0 r now
  event_for r now at_starting at_failed = launch_failed 0 (plain []) now
  event_for r now at_starting at_aborting = stop
  event_for r now at_aborting at_halting = launched 0 r now
  event_for r now at_aborting at_stopped = launch_failed 0 (sentinel canceled) now
  event_for r now at_aborting at_failed = launch_failed 0 (plain []) now
  event_for r now at_running at_halting = stop
  event_for r now at_running at_stopped = ended 0 none (zero_sample fl) now
  event_for r now at_running at_failed = ended 0 (some (plain [])) (zero_sample fl) now
  event_for r now at_halting at_stopped = ended 0 none (zero_sample fl) now
  event_for r now _ _ = start (some (plain [])) zero_options

  Moves-takes :
      (c : Coordinator F T R) (ls : List (ℕ × StartOptions)) (ws : List (ℕ × R)) (ids : List ℕ)
      (r : R) (now : T) (g : Stage)
      → IsPhase c ls ws ids
      → Moves (stage (system c ls ws ids)) g
      → stage (step fl (system c ls ws ids) (event_for r now (stage (system c ls ws ids)) g)) ≡ g
  unfolding step errors_is
  Moves-takes c [] [] ids r now g h m = ground arith
  Moves-takes c ((id, o) ∷ []) [] ids r now g h m = ground arith
  Moves-takes c [] ((id, q) ∷ []) ids r now g h m = ground arith
  Moves-takes c _ _ ids r now g h m = absurd h

  kept : (s : System F T R) → stage (step fl s (start (some (plain [])) zero_options)) ≡ stage s
  unfolding step
  kept s = refl

  -- From a system that the lifecycle invariant holds of, an event leads to a stage exactly when it
  -- is the stage already reached or one that the diagram lets follow it: no interleaving of calls
  -- and returns makes any other move, and every move of the diagram is made by some event.
  pub step-stage_iff :
      (s : System F T R) (r : R) (now : T) (g : Stage)
      → HasPhase fl s
      → ((e : Event F T R) × (stage (step fl s e) ≡ g)) ↔ ((stage s ≡ g) ⊎ Moves (stage s) g)
  step-stage_iff s r now g h = (
    λ (e, p).
        subst (λ t. (stage s ≡ t) ⊎ Moves (stage s) t) p
          (step-Keeps s.coordinator s.launching s.watched s.cancelled e h),
    λ k. elim k [
      | inl same ↦ (start (some (plain [])) zero_options, kept s ∙ same)
      | inr m ↦ (
        event_for r now (stage s) g,
        Moves-takes s.coordinator s.launching s.watched s.cancelled r now g h m,
      )
    ],
  )
