-- ===== src/Run/Coordinator/System.antt =====
-- The coordinator among its callers: the calls of Start that are inside the runner, the goroutines of
-- waitForRun, and the contexts that were cancelled. An event is one section under the mutex, so a
-- list of events is an interleaving of any number of callers and goroutines.
use pg_gobench.Base.{
  ℕ, zero, suc, Option, none, some, List, [], ◌∷◌, ◌++◌, if◌then◌else◌, Error, Result, Floats,
}
use pg_gobench.Benchmark.Options.{StartOptions, AlterOptions}
use pg_gobench.Run.Sample.{Sample}
use pg_gobench.Run.Coordinator
use pg_gobench.Run.Coordinator.{Coordinator, Begin, refused, begun}

pub record System (F T R : Type 0) : Type 0 where
  pub coordinator : Coordinator F T R
  pub launching : List (ℕ × StartOptions)
  pub watched : List (ℕ × R)
  pub cancelled : List ℕ

-- `launch_failed n` and `launched n` are the return of runner.Start in the n-th of the pending calls
-- of Start, `ended n` that of run.Wait in the n-th goroutine of waitForRun.
pub data Event (F T R : Type 0) : Type 0 where
  start : Option Error → StartOptions → Event F T R
  launch_failed : ℕ → Error → T → Event F T R
  launched : ℕ → R → T → Event F T R
  alter : AlterOptions → Result (Unit {0}) → Event F T R
  stop : Event F T R
  ended : ℕ → Option Error → Sample F → T → Event F T R

abbrev remove_at {ℓ} : {A : Type ℓ} → ℕ → List A → Option (A × List A)
remove_at n [] = none
remove_at zero (x ∷ xs) = some (x, xs)
remove_at (suc n) (x ∷ xs) = elim (remove_at n xs) [ none ↦ none | some (y, ys) ↦ some (y, x ∷ ys) ]

abbrev with_cancelled : Option ℕ → List ℕ → List ℕ
with_cancelled none ids = ids
with_cancelled (some id) ids = id ∷ ids

abbrev with_launch :
    {T : Type 0} → Begin T → StartOptions → List (ℕ × StartOptions) → List (ℕ × StartOptions)
with_launch (refused s e) options pending = pending
with_launch (begun id) options pending = pending ++ (id, options) ∷ []

module _ (fl : Floats) {T R : Type 0} where
  open fl use {F}

  unfoldable pub initial : System F T R
  unfolding Coordinator.new
  initial = record {
    coordinator = Coordinator.new fl;
    launching = [];
    watched = [];
    cancelled = [];
  }

  unfoldable pub step : System F T R → Event F T R → System F T R
  unfolding Coordinator.begin_start Coordinator.finish_start_failure Coordinator.finish_start
      Coordinator.alter Coordinator.stop Coordinator.wait_for_run
  step s (start ctx options) =
      let (c, b) = Coordinator.begin_start fl ctx options s.coordinator in
      record s { coordinator = c; launching = with_launch b options s.launching }
  step s (launch_failed n e now) = elim (remove_at n s.launching) [
    | none ↦ s
    | some ((id, options), rest) ↦ record s {
      coordinator = (Coordinator.finish_start_failure fl id options e now s.coordinator).0;
      launching = rest;
    }
  ]
  step s (launched n r now) = elim (remove_at n s.launching) [
    | none ↦ s
    | some ((id, options), rest) ↦
        let (c, _, spawned) = Coordinator.finish_start fl id r now s.coordinator in
        record s {
          coordinator = c;
          launching = rest;
          watched = if spawned then s.watched ++ (id, r) ∷ [] else s.watched;
        }
  ]
  step s (alter a answer) = record s {
    coordinator = (Coordinator.alter fl a answer s.coordinator).0;
  }
  step s stop =
      let (c, _, cancelled) = Coordinator.stop fl s.coordinator in
      record s { coordinator = c; cancelled = with_cancelled cancelled s.cancelled }
  step s (ended n e last now) = elim (remove_at n s.watched) [
    | none ↦ s
    | some ((id, r), rest) ↦ record s {
      coordinator = Coordinator.wait_for_run fl id e last now s.coordinator;
      watched = rest;
    }
  ]

  unfoldable pub run : System F T R → List (Event F T R) → System F T R
  run s [] = s
  run s (e ∷ es) = run (step s e) es
