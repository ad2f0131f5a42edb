-- ===== src/Runner/Pacing/Strands.antt =====
-- The interval of a target, and what a change of the target does to waiting workers.
use native.Mathlib.Nat.{div-add-mod, mod-lt}
use pg_gobench.Base.{
  ℕ, zero, suc, ◌+◌, ◌*◌, ◌/◌, ◌%◌, ◌≤◌, ◌<◌, ◌≡◌, ◌≢◌, ◌⊎◌, inl, some, List, [], ◌∷◌, arith, All,
  ◌==◌, if◌then◌else◌, pos,
}
use pg_gobench.Runner.Pacing.{
  second, pacing_interval, update, Pace, PaceEvent, enter, tick, cancelled, updates, closes,
  ticker_id, step, run,
}

quotient_bounds :
    (q r t i : ℕ)
    → suc t * q + r ≡ second
    → r < suc t
    → some (if q == 0 then 1 else q) ≡ some i
    → (1 ≤ i) × (second < (i + 1) * suc t) × ((i * suc t ≤ second) ⊎ (i ≡ 1))
quotient_bounds zero r t i e l h = ground arith
quotient_bounds (suc q) r t i e l h =
    let same : i ≡ suc q = ground arith in rw same (omega arith, omega arith, inl (omega arith))

-- For a target of t + 1 operations a second the interval is a nanosecond at least; one
-- nanosecond more would be too slow for the target, and the interval itself is fast enough, or is
-- the one nanosecond below which no ticker goes.
pub pacing_interval_bounds :
    (t i : ℕ)
    → pacing_interval (pos (suc t)) ≡ some i
    → (1 ≤ i) × (second < (i + 1) * suc t) × ((i * suc t ≤ second) ⊎ (i ≡ 1))
unfolding pacing_interval
pacing_interval_bounds t i h =
    quotient_bounds (second / suc t) (second % suc t) t i (div-add-mod second (suc t))
      (mod-lt second (omega arith)) h

-- The worker reads a ticker that runs no more.
pub record IsStranded (w t : ℕ) (s : Pace) : Type 0 where
  pub reads : s.waiting w ≡ some t
  pub dead : ticker_id s.gate.ticker ≢ some t
  pub old : t < s.gate.fresh

step-IsStranded :
    (w t : ℕ) (s : Pace) (e : PaceEvent)
    → e ≢ cancelled w
    → IsStranded w t s
    → IsStranded w t (step s e)
unfolding step update
step-IsStranded w t s (enter v) n h = ground arith
step-IsStranded w t s (tick v) n h = ground arith
step-IsStranded w t s (cancelled v) n h = ground arith
step-IsStranded w t s (updates target) n h = ground arith
step-IsStranded w t s closes n h = ground arith

-- No event of the list ends the worker's context.
abbrev pub NotCancelled : ℕ → List PaceEvent → Type 0
NotCancelled w es = All (λ e. e ≢ cancelled w) es

run-IsStranded :
    (w t : ℕ) (s : Pace) (es : List PaceEvent)
    → NotCancelled w es
    → IsStranded w t s
    → IsStranded w t (run s es)
unfolding run
run-IsStranded w t s [] n h = h
run-IsStranded w t s (e ∷ es) n h =
    run-IsStranded w t (step s e) es n.1 (step-IsStranded w t s e n.0 h)

updates-IsStranded :
    (w t interval target : ℕ) (s : Pace)
    → s.waiting w ≡ some t
    → s.gate.ticker ≡ some (t, interval)
    → t < s.gate.fresh
    → IsStranded w t (step s (updates (some (pos (suc target)))))
unfolding step update pacing_interval
updates-IsStranded w t interval target s h k l = record {
  reads = h;
  dead = λ e. absurd (ground arith);
  old = omega arith;
}

-- A worker that waits for the tick of a paced run when the target is changed waits on for ever:
-- whatever happens afterwards at the gate, further changes of the target and its closing included,
-- the worker is still in Wait, as long as its own context lives.
pub updates_strands_waiting :
    (w t interval target : ℕ) (s : Pace) (es : List PaceEvent)
    → s.waiting w ≡ some t
    → s.gate.ticker ≡ some (t, interval)
    → t < s.gate.fresh
    → NotCancelled w es
    → (run s (updates (some (pos (suc target))) ∷ es)).waiting w ≡ some t
unfolding run
updates_strands_waiting w t interval target s es h k l n =
    (run-IsStranded w t (step s (updates (some (pos (suc target))))) es n
      (updates-IsStranded w t interval target s h k l)).reads
