-- ===== src/Runner/Histogram/Examples.antt =====
-- A histogram of two latencies.

use pg_gobench.Base.{ℕ, ◌≡◌, refl, [], ◌∷◌, arith, ltb, map, ℤ, pos, Floats, pos_part}
use pg_gobench.Runner.Histogram.{
  Histogram, build_latency_bucket_bounds, new_latency_histogram, record_latency, quantile_of_rank,
  metrics_snapshot,
}
use pg_gobench.Runner.Histogram.Observations.{Represents, record_latency-Represents, list_sum}
use pg_gobench.Runner.Histogram.Quantiles.{
  IsQuantile, bucket_of, quantile_of_rank-IsQuantile, metrics_snapshot_counts,
}
use pg_gobench.Runner.Histogram.Fresh.{new-Represents}

-- Latencies of 2 and 40 milliseconds.
abbrev quick : ℤ
quick = pos 2000000

abbrev slow : ℤ
slow = pos 40000000

record_latency-Represents_example :
    Represents (record_latency quick new_latency_histogram) (2000000 ∷ [])
record_latency-Represents_example =
    record_latency-Represents quick new_latency_histogram [] new-Represents
      (unfold list_sum in omega arith)

two_latencies-Represents :
    Represents
      (record_latency slow (record_latency quick new_latency_histogram))
      (40000000 ∷ 2000000 ∷ [])
two_latencies-Represents =
    record_latency-Represents slow (record_latency quick new_latency_histogram) (2000000 ∷ [])
      (record_latency-Represents quick new_latency_histogram [] new-Represents
        (unfold list_sum in omega arith))
      (unfold list_sum in omega arith)

abbrev two_latencies : Histogram
two_latencies = record_latency slow (record_latency quick new_latency_histogram)

quantile_of_rank-IsQuantile_example :
    IsQuantile 1 (40000000 ∷ 2000000 ∷ []) two_latencies.bounds (quantile_of_rank 1 two_latencies)
quantile_of_rank-IsQuantile_example =
    quantile_of_rank-IsQuantile 1 two_latencies (40000000 ∷ 2000000 ∷ []) two_latencies-Represents
      (omega arith) (omega arith) (omega arith)

-- A whole-number stand-in for floats.
abbrev whole : Floats
whole = record {
  F = ℕ;
  zero = 0;
  is_positive = λ x. ltb 0 x;
  of_uint64 = λ x. x;
  of_int64 = pos_part;
  mul = λ x y. x;
  div = λ x y. x;
  ceil = λ x. x;
  to_uint64 = λ x. x;
  seconds = pos_part;
}

metrics_snapshot_counts_example :
    ((metrics_snapshot whole two_latencies).buckets
      ≡ map (bucket_of whole (40000000 ∷ 2000000 ∷ [])) two_latencies.bounds)
    × ((metrics_snapshot whole two_latencies).count ≡ 2)
    × ((metrics_snapshot whole two_latencies).sum_seconds ≡ 42000000)
unfolding list_sum
metrics_snapshot_counts_example =
    metrics_snapshot_counts whole two_latencies (40000000 ∷ 2000000 ∷ []) two_latencies-Represents
      (omega arith)

-- The median of the two is the bound of the bucket of the lower one.
two_latencies_median : quantile_of_rank 1 two_latencies ≡ 2000000
unfolding quantile_of_rank record_latency new_latency_histogram build_latency_bucket_bounds
two_latencies_median = refl
