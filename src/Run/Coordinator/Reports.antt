-- ===== src/Run/Coordinator/Reports.antt =====
-- What Results and Metrics report of the runs.
use pg_gobench.Base.{
  bytes_eq, ◌≡◌, ◌≢◌, refl, ◌↔◌, inl, inr, Bool-cases, true, false, [], ◌∷◌, arith, codes, Floats,
  Text,
}
use pg_gobench.Run.ErrorText.{compact_error_text}
use pg_gobench.Run.Sample.{Sample, stats_of, metrics_of}
use pg_gobench.Run.Coordinator.{
  State, stopped, Coordinator, normalize_results_sample, results, metrics, current_sample,
}
use pg_gobench.Run.Coordinator.System.{System}
use pg_gobench.Run.Coordinator.Lifecycle.{HasPhase}
use pg_gobench.Run.Coordinator.Settling.{accepts_iff}

bytes_eq_refl : (t : Text) → bytes_eq t t ≡ true
unfolding bytes_eq
bytes_eq_refl [] = refl
bytes_eq_refl (c ∷ t) = ground (arith, bytes_eq_refl t)

compact_empty : compact_error_text [] ≢ codes "context canceled"
unfolding compact_error_text
compact_empty e = cc

module _ (fl : Floats) {T : Type 0} where
  open fl use {F}

  hidden :
      (s : State T) (sample : Sample F)
      → s.status ≡ stopped
      → s.error ≡ []
      → compact_error_text (normalize_results_sample fl s sample).latest_error
        ≢ codes "context canceled"
  unfolding normalize_results_sample
  hidden s sample h k =
      let text = compact_error_text sample.latest_error in
      elim (Bool-cases (bytes_eq text (codes "context canceled"))) [
        | inl same ↦ rw (h, k, same) compact_empty
        | inr other ↦
            rw (h, k, other) (λ e. cc (rw e at other, bytes_eq_refl (codes "context canceled")))
      ]

module _ (fl : Floats) {T R : Type 0} where
  open fl use {F}

  -- The results of a run that has stopped without an error never show that its context was
  -- cancelled.
  pub results_hide_cancel :
      (live : Sample F) (c : Coordinator F T R)
      → c.state.status ≡ stopped
      → c.state.error ≡ []
      → compact_error_text (results fl live c).stats.latest_error ≢ codes "context canceled"
  unfolding results stats_of
  results_hide_cancel live c h k e = hidden fl c.state (current_sample fl live c) h k e

  -- The gauge of the metrics says that a run is active exactly while a launch is inside the runner
  -- or a run is being waited for.
  pub metrics-run_active_iff :
      (s : System F T R) (live : Sample F)
      → HasPhase fl s
      → ((metrics fl live s.coordinator).run_active ≡ false)
        ↔ ((s.launching ≡ []) × (s.watched ≡ []))
  unfolding metrics metrics_of
  metrics-run_active_iff s live h = accepts_iff fl s.coordinator s.launching s.watched s.cancelled h
