-- ===== src/Runner/Pacing/Examples.antt =====
-- A paced run of one client whose target is raised.
use pg_gobench.Base.{ℕ, ◌+◌, ◌*◌, ◌≤◌, ◌<◌, ◌≡◌, ◌⊎◌, refl, none, some, [], ◌∷◌, arith, pos}
use pg_gobench.Runner.Pacing.{second, pacing_interval, Pace, tick, updates, closes, run, step}
use pg_gobench.Runner.Pacing.Strands.{pacing_interval_bounds, updates_strands_waiting}

pacing_interval_bounds_example :
    (1 ≤ 333333333)
    × (second < (333333333 + 1) * 3)
    × ((333333333 * 3 ≤ second) ⊎ (◌≡◌ {A = ℕ} 333333333 1))
pacing_interval_bounds_example = pacing_interval_bounds 2 333333333 (unfold pacing_interval in refl)

-- The only worker waits for ticker 0, at 100 operations a second.
abbrev paced : Pace
paced = record { gate = record { ticker = some (0, 10000000); fresh = 1 }; waiting = λ w. some 0 }

updates_strands_waiting_example :
    (run paced (
        updates (some (pos 200))
        ∷ tick 0
        ∷ updates (some (pos 300))
        ∷ tick 0
        ∷ closes
        ∷ [])).waiting
      0
    ≡ some 0
updates_strands_waiting_example =
    updates_strands_waiting 0 0 10000000 199 paced
      (tick 0 ∷ updates (some (pos 300)) ∷ tick 0 ∷ closes ∷ []) refl refl (omega arith)
      (λ e. cc, (λ e. cc, (λ e. cc, (λ e. cc, tt))))

-- Without the change the next tick lets it go.
paced_tick : (run paced (tick 0 ∷ [])).waiting 0 ≡ none
unfolding run step
paced_tick = refl
