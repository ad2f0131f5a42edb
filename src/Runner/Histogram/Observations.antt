-- ===== src/Runner/Histogram/Observations.antt =====
-- A histogram stands for the latencies that were recorded: its counts, added up to a bound, are the
-- number of latencies up to that bound.
use pg_gobench.Base.{
  ℕ, zero, suc, ◌+◌, ◌≤◌, ◌<◌, ◌≡◌, refl, ◌∙◌, ap, ◌⊎◌, inl, inr, ◌||◌, true, List, [], ◌∷◌, arith,
  ltb, leb, ◌==◌, Bool-cases, length, get_or, update_at, ℤ, pos, int64_half, pos_part, uint64_mod,
  leb→le, not_leb→lt, subst, sym, wrap_int64, ◌+ℤ◌, if◌then◌else◌,
}
use pg_gobench.Runner.Histogram.{Histogram, add_uint64, sort_search, record_latency}
use pg_gobench.Runner.Histogram.Search.{IsFirst, IsMonotone, sort_search-IsFirst}

-- How many of the latencies are b at most.
abbrev pub count_le : ℕ → List ℕ → ℕ
count_le b [] = 0
count_le b (x ∷ xs) = let rest = count_le b xs in if leb x b then suc rest else rest

-- Bounds that rise, from one that stands before them.
abbrev pub IsRising : ℕ → List ℕ → Type 0
IsRising a [] = Unit
IsRising a (b ∷ bs) = (a < b) × IsRising b bs

-- `base` counts the latencies below these bounds, and `f` the latencies up to a bound, of `n` in all.
abbrev pub Tallies : (ℕ → ℕ) → ℕ → List ℕ → List ℕ → ℕ → Type 0
Tallies f base [] (c ∷ []) n = base + c ≡ n
Tallies f base (b ∷ bs) (c ∷ cs) n = (base + c ≡ f b) × Tallies f (f b) bs cs n
Tallies f base _ _ n = ⊥

-- The first position whose bound the latency does not pass.
bucket : ℕ → List ℕ → ℕ
bucket x [] = 0
bucket x (b ∷ bs) = if leb x b then 0 else suc (bucket x bs)

get_or-rising : (a i : ℕ) (bs : List ℕ) → IsRising a bs → i < length bs → a < get_or bs i 0
get_or-rising a i [] r h = absurd (omega arith)
get_or-rising a zero (b ∷ bs) r h = r.0
get_or-rising a (suc i) (b ∷ bs) r h = omega (arith, get_or-rising b i bs r.1 (omega arith))

get_or_mono :
    (a i j : ℕ) (bs : List ℕ)
    → IsRising a bs
    → i ≤ j
    → j < length bs
    → get_or bs i 0 ≤ get_or bs j 0
get_or_mono a i j [] r l h = absurd (omega arith)
get_or_mono a zero zero (b ∷ bs) r l h = omega arith
get_or_mono a zero (suc j) (b ∷ bs) r l h = omega (arith, get_or-rising b j bs r.1 (omega arith))
get_or_mono a (suc i) zero (b ∷ bs) r l h = absurd (omega arith)
get_or_mono a (suc i) (suc j) (b ∷ bs) r l h = get_or_mono b i j bs r.1 (omega arith) (omega arith)

passes-IsMonotone :
    (x a : ℕ) (bs : List ℕ) → IsRising a bs → IsMonotone (length bs) (λ i. leb x (get_or bs i 0))
passes-IsMonotone x a bs r i j l h p = ground (arith, get_or_mono a i j bs r l h)

-- The first position is unique.
bucket_of-IsFirst :
    (x : ℕ) (bs : List ℕ) (k : ℕ)
    → IsFirst (length bs) (λ i. leb x (get_or bs i 0)) k
    → k ≡ bucket x bs
unfolding bucket
bucket_of-IsFirst x [] zero p = refl
bucket_of-IsFirst x [] (suc k) p = absurd (omega (arith, p.0))
bucket_of-IsFirst x (b ∷ bs) zero p = elim (p.2) [ inl e ↦ absurd (omega arith) | inr hit ↦ rw hit ]
bucket_of-IsFirst x (b ∷ bs) (suc k) p = rw (p.1 0 (omega arith)) (
    ap suc
      (bucket_of-IsFirst x bs k (omega (arith, p.0), λ m h. p.1 (suc m) (omega arith), shift p.2)))
  where
    shift :
        (suc k ≡ suc (length bs)) ⊎ (leb x (get_or bs k 0) ≡ true)
        → (k ≡ length bs) ⊎ (leb x (get_or bs k 0) ≡ true)
    shift (inl e) = inl (omega arith)
    shift (inr e) = inr e

-- The index of `record` is the bucket of the latency.
index-eq-bucket :
    (x : ℕ) (bs : List ℕ)
    → IsRising 0 bs
    → sort_search (length bs) (λ i. leb x (get_or bs i 0)) ≡ bucket x bs
index-eq-bucket x bs r =
    bucket_of-IsFirst x bs _
      (sort_search-IsFirst (length bs) (λ i. leb x (get_or bs i 0)) (passes-IsMonotone x 0 bs r))

abbrev pub TalliesOf : List ℕ → ℕ → List ℕ → List ℕ → ℕ → Type 0
TalliesOf xs = Tallies (λ b. count_le b xs)

pub Tallies-base-le :
    (xs : List ℕ) (base : ℕ) (bs cs : List ℕ) (n : ℕ) → TalliesOf xs base bs cs n → base ≤ n
Tallies-base-le xs base [] [] n t = absurd t
Tallies-base-le xs base [] (c ∷ []) n t = omega arith
Tallies-base-le xs base [] (c ∷ _ ∷ _) n t = absurd t
Tallies-base-le xs base (b ∷ bs) [] n t = absurd t
Tallies-base-le xs base (b ∷ bs) (c ∷ cs) n t =
    omega (arith, t.0, Tallies-base-le xs (count_le b xs) bs cs n t.1)

count_le-cons_le : (x b : ℕ) (xs : List ℕ) → x ≤ b → count_le b (x ∷ xs) ≡ suc (count_le b xs)
count_le-cons_le x b xs h = ground arith

count_le-cons_gt : (x b : ℕ) (xs : List ℕ) → b < x → count_le b (x ∷ xs) ≡ count_le b xs
count_le-cons_gt x b xs h = ground arith

-- Past a bound that the new latency does not pass, everything is one more.
Tallies-shift :
    (x a : ℕ) (xs : List ℕ) (base : ℕ) (bs cs : List ℕ) (n : ℕ)
    → x ≤ a
    → IsRising a bs
    → TalliesOf xs base bs cs n
    → TalliesOf (x ∷ xs) (suc base) bs cs (suc n)
Tallies-shift x a xs base [] [] n h r t = t
Tallies-shift x a xs base [] (c ∷ []) n h r t = omega arith
Tallies-shift x a xs base [] (c ∷ _ ∷ _) n h r t = t
Tallies-shift x a xs base (b ∷ bs) [] n h r t = t
Tallies-shift x a xs base (b ∷ bs) (c ∷ cs) n h r t =
    rw (count_le-cons_le x b xs (omega arith)) (
      omega (arith, t.0),
      Tallies-shift x b xs (count_le b xs) bs cs n (omega (arith, r.0)) r.1 t.1,
    )

Tallies-update :
    (x a : ℕ) (xs : List ℕ) (base : ℕ) (bs cs : List ℕ) (n : ℕ)
    → IsRising a bs
    → suc n < uint64_mod
    → TalliesOf xs base bs cs n
    → TalliesOf (x ∷ xs) base bs (update_at (λ c. add_uint64 c 1) (bucket x bs) cs) (suc n)
unfolding bucket
Tallies-update x a xs base [] [] n r w t = t
Tallies-update x a xs base [] (c ∷ []) n r w t = omega arith
Tallies-update x a xs base [] (c ∷ _ ∷ _) n r w t = t
Tallies-update x a xs base (b ∷ bs) [] n r w t = absurd t
Tallies-update x a xs base (b ∷ bs) (c ∷ cs) n r w t = elim (Bool-cases (leb x b)) [
  | inl hit ↦
      let le = leb→le x b hit in
      rw (hit, count_le-cons_le x b xs le)
        (
          omega (arith, t.0, Tallies-base-le xs (count_le b xs) bs cs n t.1),
          Tallies-shift x b xs (count_le b xs) bs cs n le r.1 t.1,
        )
  | inr miss ↦
      let e = count_le-cons_gt x b xs (not_leb→lt x b miss) in
      let cs' = update_at (λ c'. add_uint64 c' 1) (bucket x bs) cs in
      rw miss (
        t.0 ∙ sym e,
        subst (λ m. TalliesOf (x ∷ xs) m bs cs' (suc n)) (sym e)
            (Tallies-update x b xs (count_le b xs) bs cs n r.1 w t.1),
      )
]

unfoldable pub list_sum : List ℕ → ℕ
list_sum [] = 0
list_sum (x ∷ xs) = x + list_sum xs

-- 0 for no latency at all, as in a histogram that has none.
unfoldable pub minimum : List ℕ → ℕ
minimum [] = 0
minimum (x ∷ []) = x
minimum (x ∷ y ∷ xs) = let rest = minimum (y ∷ xs) in if ltb x rest then x else rest

unfoldable pub maximum : List ℕ → ℕ
maximum [] = 0
maximum (x ∷ []) = x
maximum (x ∷ y ∷ xs) = let rest = maximum (y ∷ xs) in if ltb rest x then x else rest

-- What the histogram says of the latencies recorded, the last one first.
pub record Represents (h : Histogram) (xs : List ℕ) : Type 0 where
  pub rising : IsRising 0 h.bounds
  pub tallies : TalliesOf xs 0 h.bounds h.counts h.total
  pub total_length : h.total ≡ length xs
  pub sum_exact : h.sum ≡ pos (list_sum xs)
  pub min_exact : h.min ≡ minimum xs
  pub max_exact : h.max ≡ maximum xs

-- The counters have room for one more latency.
abbrev pub HasRoom : ℕ → List ℕ → Type 0
HasRoom x xs = (suc (length xs) < uint64_mod) × (x + list_sum xs < int64_half)

minimum-record :
    (x total : ℕ) (xs : List ℕ)
    → total ≡ length xs
    → total + 1 < uint64_mod
    → (if add_uint64 total 1 == 1 || ltb x (minimum xs) then x else minimum xs) ≡ minimum (x ∷ xs)
unfolding minimum
minimum-record x total [] e r = ground arith
minimum-record x total (y ∷ xs) e r = ground arith

maximum-record :
    (x total : ℕ) (xs : List ℕ)
    → total ≡ length xs
    → total + 1 < uint64_mod
    → (if add_uint64 total 1 == 1 || ltb (maximum xs) x then x else maximum xs) ≡ maximum (x ∷ xs)
unfolding maximum
maximum-record x total [] e r = ground arith
maximum-record x total (y ∷ xs) e r = ground arith

sum-record : (x s : ℕ) → x + s < int64_half → wrap_int64 (pos s +ℤ pos x) ≡ pos (x + s)
sum-record x s h = ground arith

-- Recording a latency, a negative one as 0, leads from what the histogram says of some latencies to
-- what it says with that one added, as long as no counter overflows.
pub record_latency-Represents :
    (d : ℤ) (h : Histogram) (xs : List ℕ)
    → Represents h xs
    → HasRoom (pos_part d) xs
    → Represents (record_latency d h) (pos_part d ∷ xs)
unfolding record_latency list_sum
record_latency-Represents d h xs v room = record {
  rising = v.rising;
  tallies =
      rw (index-eq-bucket (pos_part d) h.bounds v.rising, next)
        (Tallies-update (pos_part d) 0 xs 0 h.bounds h.counts h.total v.rising
          (omega (arith, v.total_length)) v.tallies);
  total_length = omega (arith, v.total_length);
  sum_exact = rw v.sum_exact (sum-record (pos_part d) (list_sum xs) room.1);
  min_exact =
      rw v.min_exact
        (minimum-record (pos_part d) h.total xs v.total_length (omega (arith, v.total_length)));
  max_exact =
      rw v.max_exact
        (maximum-record (pos_part d) h.total xs v.total_length (omega (arith, v.total_length)));
}
  where
    next : add_uint64 h.total 1 ≡ suc h.total
    next = omega (arith, v.total_length, room.0)
