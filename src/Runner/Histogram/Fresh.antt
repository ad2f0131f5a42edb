-- ===== src/Runner/Histogram/Fresh.antt =====
-- The histogram of a new run: its bounds rise and it stands for no latency.
use native.Mathlib.Numerals.{add-one}
use pg_gobench.Base.{
  ℕ, suc, ◌+◌, ◌≡◌, refl, Bool, true, ◌&&◌, List, [], ◌∷◌, arith, ltb, length, replicate,
}
use pg_gobench.Runner.Histogram.{build_latency_bucket_bounds, new_latency_histogram}
use pg_gobench.Runner.Histogram.Observations.{
  IsRising, TalliesOf, Represents, list_sum, minimum, maximum,
}

is_rising : ℕ → List ℕ → Bool
is_rising a [] = true
is_rising a (b ∷ bs) = ltb a b && is_rising b bs

is_rising_sound : (a : ℕ) (bs : List ℕ) → is_rising a bs ≡ true → IsRising a bs
unfolding is_rising
is_rising_sound a [] h = tt
is_rising_sound a (b ∷ bs) h = (ground arith, is_rising_sound b bs (ground arith))

zero_Tallies :
    (base : ℕ) (bs : List ℕ) → base ≡ 0 → TalliesOf [] base bs (replicate (suc (length bs)) 0) 0
zero_Tallies base [] e = omega arith
zero_Tallies base (b ∷ bs) e = (omega arith, zero_Tallies 0 bs refl)

bounds_length : length build_latency_bucket_bounds ≡ 320
unfolding build_latency_bucket_bounds
bounds_length = refl

zeros-Tallies :
    TalliesOf [] 0 build_latency_bucket_bounds
      (replicate (length build_latency_bucket_bounds + 1) 0)
      0
zeros-Tallies = rw add-one (zero_Tallies 0 build_latency_bucket_bounds refl)

-- The histogram of a new run.
pub new-Represents : Represents new_latency_histogram []
unfolding new_latency_histogram list_sum minimum maximum
new-Represents = record {
  rising =
      is_rising_sound 0 build_latency_bucket_bounds
        (unfold is_rising build_latency_bucket_bounds in refl);
  tallies = zeros-Tallies;
  total_length = refl;
  sum_exact = refl;
  min_exact = refl;
  max_exact = refl;
}
