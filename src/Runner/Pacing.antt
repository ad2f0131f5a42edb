-- ===== src/Runner/Pacing.antt =====
-- realPacingGate of internal/benchrunner/runtime.go, and the workers that wait at it. A ticker is the
-- number under which the clock made it. A stopped ticker sends no further tick, and its channel stays
-- open: that is what time.Ticker documents, and all that the model uses of it.
pub mod Strands
mod Examples
use pg_gobench.Base.{
  ℕ, zero, suc, ◌+◌, ◌/◌, ◌≡◌, Bool, true, false, not, ◌&&◌, Option, none, some, List, [], ◌∷◌,
  ◌==◌, if◌then◌else◌, ℤ, pos, negsuc,
}

abbrev pub second : ℕ
second = 1000000000

-- The interval of Update in nanoseconds; `none` is the panic of a division by zero. Go's quotient of
-- a second by a negative target is not positive, so it is replaced like a quotient of 0.
pub pacing_interval : ℤ → Option ℕ
pacing_interval (pos zero) = none
pacing_interval (pos (suc t)) =
    let interval = second / suc t in some (if interval == 0 then 1 else interval)
pacing_interval (negsuc t) = some 1

-- `ticker` is the gate's field, with the interval; `fresh` is the number of the clock's next ticker.
pub record Gate : Type 0 where
  pub ticker : Option (ℕ × ℕ)
  pub fresh : ℕ

-- Update: the old ticker is stopped, by leaving the field. `none` is the panic.
unfoldable pub update : Option ℤ → Gate → Option Gate
unfolding pacing_interval
update none g = some (record g { ticker = none })
update (some target) g = elim (pacing_interval target) [
  | none ↦ none
  | some interval ↦ some (record { ticker = some (g.fresh, interval); fresh = suc g.fresh })
]

unfoldable pub close : Gate → Gate
close g = record g { ticker = none }

-- newRealPacingGate, with the number of the clock's next ticker.
unfoldable pub new_gate : Option ℤ → ℕ → Option Gate
unfolding update
new_gate target fresh = update target (record { ticker = none; fresh = fresh })

-- The gate and, for each worker, the ticker whose channel it reads in Wait, if it is there.
pub record Pace : Type 0 where
  pub gate : Gate
  pub waiting : ℕ → Option ℕ

-- `enter w` is a call of Wait by worker w, `tick w` a tick that w receives, and `cancelled w` the end
-- of its context.
pub data PaceEvent : Type 0 where
  enter tick cancelled : ℕ → PaceEvent
  updates : Option ℤ → PaceEvent
  closes : PaceEvent

abbrev pub put : (ℕ → Option ℕ) → ℕ → Option ℕ → ℕ → Option ℕ
put f w v k = if k == w then v else f k

abbrev pub ticker_id : Option (ℕ × ℕ) → Option ℕ
ticker_id none = none
ticker_id (some (id, interval)) = some id

-- The ticker that the worker reads is the one that runs.
abbrev pub is_running : Option ℕ → Option (ℕ × ℕ) → Bool
is_running none running = false
is_running (some t) none = false
is_running (some t) (some (id, interval)) = t == id

abbrev is_none : Option ℕ → Bool
is_none none = true
is_none (some t) = false

-- A worker that is not in Wait takes the gate's ticker, or goes on at once if there is none. Only the
-- gate's own ticker still ticks. An update that panics ends the program.
unfoldable pub step : Pace → PaceEvent → Pace
unfolding update close
step s (enter w) =
    if is_none (s.waiting w)
    then record s { waiting = put s.waiting w (ticker_id s.gate.ticker) }
    else s
step s (tick w) =
    if is_running (s.waiting w) s.gate.ticker
    then record s { waiting = put s.waiting w none }
    else s
step s (cancelled w) = record s { waiting = put s.waiting w none }
step s (updates target) = elim (update target s.gate) [ none ↦ s | some g ↦ record s { gate = g } ]
step s closes = record s { gate = close s.gate }

unfoldable pub run : Pace → List PaceEvent → Pace
run s [] = s
run s (e ∷ es) = run (step s e) es
