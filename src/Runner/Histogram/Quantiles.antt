-- ===== src/Runner/Histogram/Quantiles.antt =====
-- What the histogram reports of the latencies it stands for: the cumulative buckets and quantiles.
use pg_gobench.Base.{
  ℕ, ◌≤◌, ◌<◌, ◌≡◌, refl, sym, ap, ap₂, pos, ◌∙◌, subst, ◌⊎◌, inl, inr, true, false, List, [], ◌∷◌,
  arith, ltb, ◌==◌, Bool-cases, length, All, map, uint64_mod, Floats, ltb→lt, not_ltb→le,
}
use pg_gobench.Runner.Histogram.{
  Histogram, add_uint64, quantile_loop, quantile_of_rank, buckets_loop, metrics_snapshot,
}
use pg_gobench.Runner.Histogram.Observations.{
  count_le, IsRising, TalliesOf, Tallies-base-le, maximum, Represents, list_sum,
}
use pg_gobench.Run.Sample.{LatencyHistogramBucket}

module _ (fl : Floats) where
  open fl use {F, seconds}

  -- The bucket of a bound, with the number of the latencies up to it.
  abbrev pub bucket_of : List ℕ → ℕ → LatencyHistogramBucket F
  bucket_of xs b = record {
    upper_bound_seconds = seconds (pos b);
    cumulative_count = count_le b xs;
  }

  buckets_up_to :
      (xs : List ℕ) (base : ℕ) (bs cs : List ℕ) (n : ℕ)
      → n < uint64_mod
      → TalliesOf xs base bs cs n
      → buckets_loop fl base bs cs ≡ map (bucket_of xs) bs
  unfolding buckets_loop
  buckets_up_to xs base [] cs n w t = refl
  buckets_up_to xs base (b ∷ bs) [] n w t = absurd t
  buckets_up_to xs base (b ∷ bs) (c ∷ cs) n w t =
      let e : add_uint64 base c ≡ count_le b xs =
        omega (arith, t.0, Tallies-base-le xs (count_le b xs) bs cs n t.1) in
      ap₂ (λ k ks. record { upper_bound_seconds = seconds (pos b); cumulative_count = k } ∷ ks) e
        (subst (λ m. buckets_loop fl m bs cs ≡ map (bucket_of xs) bs) (sym e)
          (buckets_up_to xs (count_le b xs) bs cs n w t.1))

  -- A snapshot has one bucket for each bound of the histogram, in order, with that bound in seconds
  -- and the number of the recorded latencies up to that bound; its count is that of all of them, and
  -- its sum is theirs, in seconds.
  pub metrics_snapshot_counts :
      (h : Histogram) (xs : List ℕ)
      → Represents h xs
      → length xs < uint64_mod
      → ((metrics_snapshot fl h).buckets ≡ map (bucket_of xs) h.bounds)
        × ((metrics_snapshot fl h).count ≡ length xs)
        × ((metrics_snapshot fl h).sum_seconds ≡ seconds (pos (list_sum xs)))
  unfolding metrics_snapshot
  metrics_snapshot_counts h xs v w = (
    buckets_up_to xs 0 h.bounds h.counts h.total (omega (arith, v.total_length)) v.tallies,
    v.total_length,
    ap seconds v.sum_exact,
  )

count_le-All : (b : ℕ) (xs : List ℕ) → All (λ x. x ≤ b) xs → count_le b xs ≡ length xs
count_le-All b [] h = refl
count_le-All b (x ∷ xs) h = ground (arith, count_le-All b xs h.1, h.0)

All-le_mono : (a b : ℕ) (xs : List ℕ) → a ≤ b → All (λ x. x ≤ a) xs → All (λ x. x ≤ b) xs
All-le_mono a b [] l h = tt
All-le_mono a b (x ∷ xs) l h = (omega (arith, h.0), All-le_mono a b xs l h.1)

le-maximum : (xs : List ℕ) → All (λ x. x ≤ maximum xs) xs
unfolding maximum
le-maximum [] = tt
le-maximum (x ∷ []) = (omega arith, tt)
le-maximum (x ∷ y ∷ xs) =
    (ground arith, All-le_mono (maximum (y ∷ xs)) _ (y ∷ xs) (ground arith) (le-maximum (y ∷ xs)))

abbrev pub IsAmong : ℕ → List ℕ → Type 0
IsAmong q [] = ⊥
IsAmong q (b ∷ bs) = (q ≡ b) ⊎ IsAmong q bs

-- q has at least `rank` latencies up to it, and no bound below q has; and it is one of the bounds,
-- or no bound at all has that many and it is the greatest latency.
abbrev pub IsQuantile : ℕ → List ℕ → List ℕ → ℕ → Type 0
IsQuantile rank xs bs q =
    (rank ≤ count_le q xs)
    × All (λ b. (count_le b xs < rank) ⊎ (q ≤ b)) bs
    × (IsAmong q bs ⊎ ((q ≡ maximum xs) × All (λ b. count_le b xs < rank) bs))

rising_above :
    (q a : ℕ) (xs : List ℕ) (rank : ℕ) (bs : List ℕ)
    → q ≤ a
    → IsRising a bs
    → All (λ b. (count_le b xs < rank) ⊎ (q ≤ b)) bs
rising_above q a xs rank [] l r = tt
rising_above q a xs rank (b ∷ bs) l r =
    (inr (omega (arith, r.0)), rising_above q b xs rank bs (omega (arith, r.0)) r.1)

quantile_loop-below :
    (rank top base m b : ℕ) (bs : List ℕ) (c : ℕ) (cs : List ℕ)
    → add_uint64 base c ≡ m
    → ltb m rank ≡ true
    → quantile_loop rank top base (b ∷ bs) (c ∷ cs) ≡ quantile_loop rank top m bs cs
unfolding quantile_loop
quantile_loop-below rank top base m b bs c cs e t = rw (e, t)

quantile_loop-reached :
    (rank top base m b : ℕ) (bs : List ℕ) (c : ℕ) (cs : List ℕ)
    → add_uint64 base c ≡ m
    → ltb m rank ≡ false
    → quantile_loop rank top base (b ∷ bs) (c ∷ cs) ≡ b
unfolding quantile_loop
quantile_loop-reached rank top base m b bs c cs e t = rw (e, t)

quantile_loop-last : (rank top base c : ℕ) → quantile_loop rank top base [] (c ∷ []) ≡ top
unfolding quantile_loop
quantile_loop-last rank top base c = ground arith

below-IsQuantile :
    (rank b q : ℕ) (xs bs : List ℕ)
    → count_le b xs < rank
    → IsQuantile rank xs bs q
    → IsQuantile rank xs (b ∷ bs) q
below-IsQuantile rank b q xs bs l (r, a, inl m) = (r, (inl l, a), inl (inr m))
below-IsQuantile rank b q xs bs l (r, a, inr (e, k)) = (r, (inl l, a), inr (e, (l, k)))

quantile_loop-IsQuantile :
    (rank : ℕ) (xs : List ℕ) (base a : ℕ) (bs cs : List ℕ) (n : ℕ)
    → n < uint64_mod
    → rank ≤ n
    → count_le (maximum xs) xs ≡ n
    → IsRising a bs
    → TalliesOf xs base bs cs n
    → IsQuantile rank xs bs (quantile_loop rank (maximum xs) base bs cs)
quantile_loop-IsQuantile rank xs base a [] [] n w k m r t = absurd t
quantile_loop-IsQuantile rank xs base a [] (c ∷ []) n w k m r t =
    rw (quantile_loop-last rank (maximum xs) base c) (omega arith, tt, inr (refl, tt))
quantile_loop-IsQuantile rank xs base a [] (c ∷ _ ∷ _) n w k m r t = absurd t
quantile_loop-IsQuantile rank xs base a (b ∷ bs) [] n w k m r t = absurd t
quantile_loop-IsQuantile rank xs base a (b ∷ bs) (c ∷ cs) n w k m r t =
    let e : add_uint64 base c ≡ count_le b xs =
      omega (arith, t.0, Tallies-base-le xs (count_le b xs) bs cs n t.1) in
    elim (Bool-cases (ltb (count_le b xs) rank)) [
      | inl below ↦
          subst (IsQuantile rank xs (b ∷ bs))
            (sym (quantile_loop-below rank (maximum xs) base _ b bs c cs e below))
            (below-IsQuantile rank b _ xs bs (ltb→lt (count_le b xs) rank below)
              (quantile_loop-IsQuantile rank xs (count_le b xs) b bs cs n w k m r.1 t.1))
      | inr reached ↦
          subst (IsQuantile rank xs (b ∷ bs))
            (sym (quantile_loop-reached rank (maximum xs) base _ b bs c cs e reached))
            (
              not_ltb→le (count_le b xs) rank reached,
              (inr (omega arith), rising_above b b xs rank bs (omega arith) r.1),
              inl (inl refl),
            )
    ]

quantile_of_rank_lem :
    (rank : ℕ) (h : Histogram) (xs : List ℕ)
    → Represents h xs
    → 1 ≤ rank
    → rank ≤ length xs
    → quantile_of_rank rank h ≡ quantile_loop rank (maximum xs) 0 h.bounds h.counts
unfolding quantile_of_rank
quantile_of_rank_lem rank h xs v low high =
    let positive : (h.total == 0) ≡ false = ground (arith, v.total_length) in
    let given : (rank == 0) ≡ false = ground arith in rw (positive, given, v.max_exact)

-- The quantile of a rank from 1 to the number of recorded latencies has at least that many latencies
-- up to it, and no bucket bound below it has that many. It is one of the bounds: that of the bucket in
-- which the latency of that rank lies; or no bound has that many, and it is the greatest latency.
pub quantile_of_rank-IsQuantile :
    (rank : ℕ) (h : Histogram) (xs : List ℕ)
    → Represents h xs
    → length xs < uint64_mod
    → 1 ≤ rank
    → rank ≤ length xs
    → IsQuantile rank xs h.bounds (quantile_of_rank rank h)
quantile_of_rank-IsQuantile rank h xs v w low high =
    subst (IsQuantile rank xs h.bounds) (sym (quantile_of_rank_lem rank h xs v low high)) (
      quantile_loop-IsQuantile rank xs 0 0 h.bounds h.counts h.total (omega (arith, v.total_length))
        (omega (arith, v.total_length))
        (count_le-All (maximum xs) xs (le-maximum xs) ∙ sym v.total_length) v.rising v.tallies)
