-- ===== src/Runner/Histogram.antt =====
-- The latency histogram of internal/benchrunner/stats.go. A duration is its nanoseconds; counts are
-- uint64 and the sum is an int64, both of which wrap.
pub mod Search
pub mod Observations
pub mod Quantiles
pub mod Fresh
mod Examples
use pg_gobench.Base.{
  ℕ, zero, suc, ◌+◌, ◌*◌, ◌/◌, ◌%◌, ◌≡◌, Bool, true, false, not, ◌||◌, Option, none, some, List, [],
  ◌∷◌, ◌++◌, ltb, leb, ◌==◌, if◌then◌else◌, length, get_or, replicate, update_at, ℤ, pos, pos_part,
  ◌+ℤ◌, wrap_int64, uint64_mod, Floats,
}
use pg_gobench.Run.Sample.{LatencyHistogramBucket, LatencyHistogramSnapshot}

pub record Histogram : Type 0 where
  pub bounds : List ℕ
  pub counts : List ℕ
  pub total : ℕ
  pub sum : ℤ
  pub min : ℕ
  pub max : ℕ

abbrev pub millisecond : ℕ
millisecond = 1000000

-- `for milliseconds := start; milliseconds <= limit; milliseconds += step`, on fuel.
bounds_loop : ℕ → ℕ → ℕ → ℕ → List ℕ
bounds_loop zero start limit step = []
bounds_loop (suc fuel) start limit step =
    let rest = bounds_loop fuel (start + step) limit step in
    if leb start limit then (start * millisecond) ∷ rest else []

-- Each loop has fewer rounds than its fuel: 100, 80, 50 and 90.
unfoldable pub build_latency_bucket_bounds : List ℕ
unfolding bounds_loop
build_latency_bucket_bounds =
    bounds_loop 101 1 100 1
    ++ (bounds_loop 81 105 500 5 ++ (bounds_loop 51 510 1000 10 ++ bounds_loop 91 1100 10000 100))

unfoldable pub new_latency_histogram : Histogram
new_latency_histogram = record {
  bounds = build_latency_bucket_bounds;
  counts = replicate (length build_latency_bucket_bounds + 1) 0;
  total = 0;
  sum = pos 0;
  min = 0;
  max = 0;
}

-- The loop of sort.Search: the test is false below i and true from j on.
search_loop : ℕ → (ℕ → Bool) → ℕ → ℕ → ℕ
search_loop zero test i j = i
search_loop (suc fuel) test i j =
    let h = (i + j) / 2 in
    let left = search_loop fuel test i h in
    let right = search_loop fuel test (h + 1) j in
    if ltb i j then (if test h then left else right) else i

-- sort.Search(n, test). The range shrinks in every round, so n rounds are enough.
pub sort_search : ℕ → (ℕ → Bool) → ℕ
unfolding search_loop
sort_search n test = search_loop n test 0 n

abbrev pub add_uint64 : ℕ → ℕ → ℕ
add_uint64 a b = (a + b) % uint64_mod

-- `pos_part` is the `if latency < 0 { latency = 0 }` of record.
unfoldable pub record_latency : ℤ → Histogram → Histogram
unfolding sort_search
record_latency duration h =
    let latency = pos_part duration in
    let index = sort_search (length h.bounds) (λ i. leb latency (get_or h.bounds i 0)) in
    let total = add_uint64 h.total 1 in
    record {
      bounds = h.bounds;
      counts = update_at (λ c. add_uint64 c 1) index h.counts;
      total = total;
      sum = wrap_int64 (h.sum +ℤ pos latency);
      min = if total == 1 || ltb latency h.min then latency else h.min;
      max = if total == 1 || ltb h.max latency then latency else h.max;
    }

-- The loop of quantile. The bound at the index of a count is met by walking both lists; past the last
-- bound stands the maximum.
pub quantile_loop : ℕ → ℕ → ℕ → List ℕ → List ℕ → ℕ
quantile_loop rank top cumulative bounds [] = top
quantile_loop rank top cumulative [] (c ∷ counts) =
    let rest = quantile_loop rank top (add_uint64 cumulative c) [] counts in
    if ltb (add_uint64 cumulative c) rank then rest else top
quantile_loop rank top cumulative (b ∷ bounds) (c ∷ counts) =
    let rest = quantile_loop rank top (add_uint64 cumulative c) bounds counts in
    if ltb (add_uint64 cumulative c) rank then rest else b

-- quantile, from its rank on.
unfoldable pub quantile_of_rank : ℕ → Histogram → ℕ
unfolding quantile_loop
quantile_of_rank rank h =
    if h.total == 0
    then 0
    else quantile_loop (if rank == 0 then 1 else rank) h.max 0 h.bounds h.counts

module _ (fl : Floats) where
  open fl use {F, mul, ceil, of_uint64, to_uint64, seconds}

  unfoldable pub quantile : F → Histogram → ℕ
  quantile percentile h = quantile_of_rank (to_uint64 (ceil (mul percentile (of_uint64 h.total)))) h

  -- The loop of metricsSnapshot. A histogram has a count for every bound.
  pub buckets_loop : ℕ → List ℕ → List ℕ → List (LatencyHistogramBucket F)
  buckets_loop cumulative [] counts = []
  buckets_loop cumulative (b ∷ bounds) [] = []
  buckets_loop cumulative (b ∷ bounds) (c ∷ counts) =
      record { upper_bound_seconds = seconds (pos b); cumulative_count = add_uint64 cumulative c }
      ∷ buckets_loop (add_uint64 cumulative c) bounds counts

  unfoldable pub metrics_snapshot : Histogram → LatencyHistogramSnapshot F
  unfolding buckets_loop
  metrics_snapshot h = record {
    buckets = buckets_loop 0 h.bounds h.counts;
    count = h.total;
    sum_seconds = seconds h.sum;
  }
