-- ===== src/Run/Coordinator/Settling.antt =====
-- When a start is accepted, and how a run comes to rest.
use pg_gobench.Base.{
  ℕ, ◌≡◌, ◌≢◌, refl, ◌↔◌, ◌⊎◌, true, false, ◌&&◌, none, some, List, [], ◌∷◌, arith, Error, canceled,
  errors_is, message, Floats, inl, inr, Bool-cases,
}
use pg_gobench.Benchmark.Options.{StartOptions}
use pg_gobench.Run.ErrorText.{compact_error_text}
use pg_gobench.Run.Coordinator.{
  Status, stopped, failed, Coordinator, begun, is_active, is_stopping, begin_start,
}
use pg_gobench.Run.Coordinator.System.{System, launch_failed, step}
use pg_gobench.Run.Coordinator.Lifecycle.{IsPhase, HasPhase}

-- What a launch that fails leaves: a stopped coordinator if the caller had stopped it and the
-- error is the cancellation, and else a failed one that shows the error.
abbrev pub AfterFailure : Status → Error → Status → List ℕ → Type 0
AfterFailure before e after text =
    ((is_stopping before && errors_is canceled e ≡ true) × (after ≡ stopped) × (text ≡ []))
    ⊎ ((is_stopping before && errors_is canceled e ≡ false)
        × (after ≡ failed)
        × (text ≡ compact_error_text (message e)))

module _ (fl : Floats) {T R : Type 0} where
  open fl use {F}

  pub accepts_iff :
      (c : Coordinator F T R) (ls : List (ℕ × StartOptions)) (ws : List (ℕ × R)) (ids : List ℕ)
      → IsPhase c ls ws ids
      → (is_active c.state.status ≡ false) ↔ ((ls ≡ []) × (ws ≡ []))
  accepts_iff c [] [] ids h = ground arith
  accepts_iff c ((id, o) ∷ []) [] ids h = ground arith
  accepts_iff c [] ((id, r) ∷ []) ids h = ground arith
  accepts_iff c _ _ ids h = absurd h

  begun_iff :
      (c : Coordinator F T R) (o : StartOptions)
      → ((id : ℕ) × ((begin_start fl none o c).1 ≡ begun id)) ↔ (is_active c.state.status ≡ false)
  unfolding begin_start
  begun_iff c o = elim (Bool-cases (is_active c.state.status)) [
    | inl busy ↦ rw busy (λ (id, e). cc, λ e. cc)
    | inr free ↦ rw free (λ _. refl, λ _. (_, refl))
  ]

  -- A call of Start whose context is alive is let through to the runner exactly when no other
  -- launch is inside the runner and no run is being waited for.
  pub begin_start-begun_iff :
      (s : System F T R) (o : StartOptions)
      → HasPhase fl s
      → ((id : ℕ) × ((begin_start fl none o s.coordinator).1 ≡ begun id))
        ↔ ((s.launching ≡ []) × (s.watched ≡ []))
  begin_start-begun_iff s o h =
      let (f, g) = begun_iff s.coordinator o in
      let (f', g') = accepts_iff s.coordinator s.launching s.watched s.cancelled h in
      (λ b. f' (f b), λ e. g (g' e))

  abbrev system : Coordinator F T R → List (ℕ × StartOptions) → List (ℕ × R) → List ℕ → System F T R
  system c ls ws ids = record { coordinator = c; launching = ls; watched = ws; cancelled = ids }

  -- Stopped, and nothing under way.
  pub record IsSettled (options : StartOptions) (s : System F T R) : Type 0 where
    pub status : s.coordinator.state.status ≡ stopped
    pub no_error : s.coordinator.state.error ≡ []
    pub same_options : s.coordinator.state.options ≡ options
    pub no_run : s.coordinator.run ≡ none
    pub no_launch : s.launching ≡ []
    pub no_watcher : s.watched ≡ []

  abbrev pub FailsWith : Status → StartOptions → Error → T → System F T R → Type 0
  FailsWith before options e now s =
      AfterFailure before e s.coordinator.state.status s.coordinator.state.error
      × (s.coordinator.state.options ≡ options)
      × (s.coordinator.state.stopped_at ≡ some now)
      × (s.launching ≡ [])
      × (s.watched ≡ [])

  fail_launch :
      (c : Coordinator F T R) (id : ℕ) (o : StartOptions) (ws : List (ℕ × R)) (ids : List ℕ)
      (e : Error) (now : T)
      → IsPhase c ((id, o) ∷ []) ws ids
      → FailsWith c.state.status c.state.options e now
          (step fl (system c ((id, o) ∷ []) ws ids) (launch_failed 0 e now))
  unfolding step
  fail_launch c id o [] ids e now h = ground arith
  fail_launch c id o (w ∷ ws) ids e now h = absurd h

  fails :
      (c : Coordinator F T R) (ls : List (ℕ × StartOptions)) (ws : List (ℕ × R)) (ids : List ℕ)
      (e : Error) (now : T)
      → IsPhase c ls ws ids
      → ls ≢ []
      → FailsWith c.state.status c.state.options e now
          (step fl (system c ls ws ids) (launch_failed 0 e now))
  fails c [] ws ids e now h n = absurd (n refl)
  fails c ((id, o) ∷ []) ws ids e now h n = fail_launch c id o ws ids e now h
  fails c (_ ∷ _ ∷ _) ws ids e now h n = absurd h

  -- A launch that fails leaves nothing behind and the options as they were. The coordinator is
  -- stopped, with no error text, if it was being stopped and the error is a cancellation; else it
  -- has failed and shows the compacted error. The stop time is that of the failure.
  pub launch_failed_outcome :
      (s : System F T R) (e : Error) (now : T)
      → HasPhase fl s
      → s.launching ≢ []
      → FailsWith s.coordinator.state.status s.coordinator.state.options e now
          (step fl s (launch_failed 0 e now))
  launch_failed_outcome s e now = fails s.coordinator s.launching s.watched s.cancelled e now
