-- ===== src/Runner/Stats/Examples.antt =====
-- Two operations after a warmup of 10 seconds, and one within it.
use mathlib.Core.List.Permᴰ
use pg_gobench.Base.{
  ◌*◌, ℕ, ◌+◌, ◌≡◌, refl, Option, none, some, List, [], ◌∷◌, arith, pos, Error, plain, codes,
}
use pg_gobench.Runner.Histogram.Fresh.{new-Represents}
use pg_gobench.Runner.Histogram.Observations.{list_sum}
use pg_gobench.Runner.Stats.{RunStats, new_run_stats}
use pg_gobench.Runner.Stats.Operations.{Operation, measured}
use pg_gobench.Runner.Stats.Counting.{
  Counts, HaveRoom, record_all, record_all-Counts, total-eq-add, new_run_stats-Counts,
}
use pg_gobench.Runner.Stats.Ordering.{Agree, record_all-Agree}

abbrev second : ℕ
second = 1000000000

abbrev operation : ℕ → Option Error → Operation
operation completed e = record {
  kind = pos 0;
  latency = pos 2000000;
  completed_at = pos (completed * second);
  error = e;
}

abbrev log : List Operation
log = operation 112 none ∷ operation 111 (some (plain (codes "lost"))) ∷ operation 105 none ∷ []

abbrev started : RunStats
started = new_run_stats (pos (100 * second)) (pos (10 * second)) (pos 4)

log-HaveRoom : HaveRoom (pos (110 * second)) log
log-HaveRoom = unfold measured list_sum in omega arith

record_all-Counts_example : Counts (pos (110 * second)) [] log (record_all log started)
record_all-Counts_example =
    record_all-Counts (pos (110 * second)) [] log started
      (new_run_stats-Counts (pos (100 * second)) (pos (10 * second)) (pos 4) new-Represents)
      log-HaveRoom

total_of_log :
    let s = record_all log started in
    s.total_operations ≡ s.successful_operations + s.failed_operations
total_of_log = total-eq-add (pos (110 * second)) [] log (record_all log started) (
    record_all-Counts (pos (110 * second)) [] log started
      (new_run_stats-Counts (pos (100 * second)) (pos (10 * second)) (pos 4) new-Represents)
      log-HaveRoom)

-- Two workers that take the lock of the counters in the other order.
abbrev other_log : List Operation
other_log =
    operation 111 (some (plain (codes "lost"))) ∷ operation 112 none ∷ operation 105 none ∷ []

other_log-HaveRoom : HaveRoom (pos (110 * second)) other_log
other_log-HaveRoom = unfold measured list_sum in omega arith

record_all-Agree_example : Agree (record_all log started) (record_all other_log started)
record_all-Agree_example =
    record_all-Agree (pos (110 * second)) ∣ Permᴰ.swap refl refl ∣₁ [] started
      (new_run_stats-Counts (pos (100 * second)) (pos (10 * second)) (pos 4) new-Represents)
      log-HaveRoom other_log-HaveRoom
