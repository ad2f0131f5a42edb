-- ===== src/Runner/Stats/Ordering.antt =====
-- The counters of runStats do not depend on the order in which workers record their operations: the
-- lists of operations are compared up to a permutation.
use mathlib.Core.List.{Perm}
use pg_gobench.Base.{
  IsOrderFree, same_on_Perm, ℕ, zero, suc, ◌+◌, ◌<◌, ◌≡◌, refl, sym, ap, ap₂, ◌∙◌, inl, inr, Bool,
  List, [], ◌∷◌, arith, if◌then◌else◌, ltb, leb, Bool-cases, length, get_or, ℤ, pos, pos_part,
  ltb_ℤ, Text,
}
use pg_gobench.Runner.Histogram.{Histogram, record_latency}
use pg_gobench.Runner.Histogram.Observations.{
  Tallies, Represents, count_le, list_sum, minimum, maximum,
}
use pg_gobench.Runner.Stats.{RunStats, operation_kind_count, record_operation, count_operation}
use pg_gobench.Runner.Stats.Operations.{
  Operation, measured, count_if, succeeded, failed, has_kind, latencies,
}
use pg_gobench.Runner.Stats.Counting.{Counts, HaveRoom, record_all, record_all-Counts}

count_if-IsOrderFree :
    (from : ℤ) (p : Operation → Bool) → IsOrderFree (λ os. count_if p (measured from os))
unfolding measured
count_if-IsOrderFree from p = record {
  take = λ o n. if ltb_ℤ o.completed_at from then n else if p o then suc n else n;
  takes = λ o os. ground arith;
  commutes = λ x y n. ground arith;
}

length-IsOrderFree : (from : ℤ) → IsOrderFree (λ os. length (measured from os))
unfolding measured
length-IsOrderFree from = record {
  take = λ o n. if ltb_ℤ o.completed_at from then n else suc n;
  takes = λ o os. ground arith;
  commutes = λ x y n. ground arith;
}

count_le-IsOrderFree :
    (from : ℤ) (b : ℕ) → IsOrderFree (λ os. count_le b (latencies (measured from os)))
unfolding measured
count_le-IsOrderFree from b = record {
  take = λ o n.
      if ltb_ℤ o.completed_at from then n else if leb (pos_part o.latency) b then suc n else n;
  takes = λ o os. ground arith;
  commutes = λ x y n. ground arith;
}

list_sum-IsOrderFree : (from : ℤ) → IsOrderFree (λ os. list_sum (latencies (measured from os)))
unfolding measured list_sum
list_sum-IsOrderFree from = record {
  take = λ o n. if ltb_ℤ o.completed_at from then n else pos_part o.latency + n;
  takes = λ o os. ground arith;
  commutes = λ x y n. ground arith;
}

-- The number of the latencies with the least or the greatest of them.
abbrev lower : ℕ → ℕ × ℕ → ℕ × ℕ
lower x (zero, m) = (1, x)
lower x (suc n, m) = (suc (suc n), if ltb x m then x else m)

abbrev raise : ℕ → ℕ × ℕ → ℕ × ℕ
raise x (zero, m) = (1, x)
raise x (suc n, m) = (suc (suc n), if ltb m x then x else m)

lower_comm : (x y : ℕ) (b : ℕ × ℕ) → lower x (lower y b) ≡ lower y (lower x b)
lower_comm x y (zero, m) = ground arith
lower_comm x y (suc n, m) = ground arith

raise_comm : (x y : ℕ) (b : ℕ × ℕ) → raise x (raise y b) ≡ raise y (raise x b)
raise_comm x y (zero, m) = ground arith
raise_comm x y (suc n, m) = ground arith

lower_takes :
    (x : ℕ) (xs : List ℕ) → (length (x ∷ xs), minimum (x ∷ xs)) ≡ lower x (length xs, minimum xs)
unfolding minimum
lower_takes x [] = refl
lower_takes x (y ∷ xs) = refl

raise_takes :
    (x : ℕ) (xs : List ℕ) → (length (x ∷ xs), maximum (x ∷ xs)) ≡ raise x (length xs, maximum xs)
unfolding maximum
raise_takes x [] = refl
raise_takes x (y ∷ xs) = refl

-- From the latencies to the operations: those of the warmup are passed over.
on_measured :
    {B : Type 0} {f : List ℕ → B} (from : ℤ)
    → IsOrderFree f
    → IsOrderFree (λ os. f (latencies (measured from os)))
unfolding measured
on_measured {f = f} from k = record {
  take = λ o b. if ltb_ℤ o.completed_at from then b else k.take (pos_part o.latency) b;
  takes = λ o os. elim (Bool-cases (ltb_ℤ o.completed_at from)) [
    | inl e ↦ rw e refl
    | inr e ↦ rw e (k.takes (pos_part o.latency) (latencies (measured from os)))
  ];
  commutes = λ x y b. elim (Bool-cases (ltb_ℤ x.completed_at from)) [
    | inl e ↦ rw e refl
    | inr e ↦ elim (Bool-cases (ltb_ℤ y.completed_at from)) [
      | inl d ↦ rw (e, d) refl
      | inr d ↦ rw (e, d) (k.commutes (pos_part x.latency) (pos_part y.latency) b)
    ]
  ];
}

lowest-IsOrderFree : IsOrderFree {B = ℕ × ℕ} (λ (xs : List ℕ). (length xs, minimum xs))
lowest-IsOrderFree = record { take = lower; takes = lower_takes; commutes = lower_comm }

highest-IsOrderFree : IsOrderFree {B = ℕ × ℕ} (λ (xs : List ℕ). (length xs, maximum xs))
highest-IsOrderFree = record { take = raise; takes = raise_takes; commutes = raise_comm }

-- The tallies fix the counts.
Tallies-unique :
    (f g : ℕ → ℕ) (base : ℕ) (bs cs ds : List ℕ) (n : ℕ)
    → ((b : ℕ) → f b ≡ g b)
    → Tallies f base bs cs n
    → Tallies g base bs ds n
    → cs ≡ ds
Tallies-unique f g base [] (c ∷ []) (d ∷ []) n e h k = ap (λ x. x ∷ []) (omega (arith, h, k))
Tallies-unique f g base (b ∷ bs) (c ∷ cs) (d ∷ ds) n e h k =
    ap₂ (λ x xs. x ∷ xs) (omega (arith, h.0, k.0, e b))
      (Tallies-unique f g (f b) bs cs ds n e h.1 (rw (e b) k.1))
Tallies-unique f g base [] (c ∷ _ ∷ _) ds n e h k = absurd h
Tallies-unique f g base [] [] ds n e h k = absurd h
Tallies-unique f g base [] (c ∷ []) [] n e h k = absurd k
Tallies-unique f g base [] (c ∷ []) (d ∷ _ ∷ _) n e h k = absurd k
Tallies-unique f g base (b ∷ bs) [] ds n e h k = absurd h
Tallies-unique f g base (b ∷ bs) (c ∷ cs) [] n e h k = absurd k

Histogram-ext :
    (h k : Histogram)
    → h.bounds ≡ k.bounds
    → h.counts ≡ k.counts
    → h.total ≡ k.total
    → h.sum ≡ k.sum
    → h.min ≡ k.min
    → h.max ≡ k.max
    → h ≡ k
Histogram-ext h k a b c d e f =
    λ i. record { bounds = a i; counts = b i; total = c i; sum = d i; min = e i; max = f i }

record_all-bounds :
    (os : List Operation) (s : RunStats) → (record_all os s).latency.bounds ≡ s.latency.bounds
unfolding record_all record_operation count_operation record_latency
record_all-bounds [] s = refl
record_all-bounds (o ∷ os) s = ground (arith, record_all-bounds os s)

-- The same numbers; the latest error alone may differ.
pub record Agree (s t : RunStats) : Type 0 where
  pub total : s.total_operations ≡ t.total_operations
  pub successful : s.successful_operations ≡ t.successful_operations
  pub failures : s.failed_operations ≡ t.failed_operations
  pub per_kind : (k : ℕ) → k < operation_kind_count → get_or s.per_kind k 0 ≡ get_or t.per_kind k 0
  pub latency : s.latency ≡ t.latency

module _ (from : ℤ) {os rs : List Operation} (p : Perm os rs) where
  same_count :
      (q : Operation → Bool) → count_if q (measured from os) ≡ count_if q (measured from rs)
  same_count q = same_on_Perm (count_if-IsOrderFree from q) (λ n. n) p

  same_number : length (measured from os) ≡ length (measured from rs)
  same_number = same_on_Perm (length-IsOrderFree from) (λ n. n) p

  same_latencies :
      (h k : Histogram)
      → h.bounds ≡ k.bounds
      → h.total ≡ k.total
      → Represents h (latencies (measured from os))
      → Represents k (latencies (measured from rs))
      → h ≡ k
  same_latencies h k b t u v =
      let sums = same_on_Perm (list_sum-IsOrderFree from) (λ n. n) p in
      let lows = same_on_Perm (on_measured from lowest-IsOrderFree) (λ m. m.1) p in
      let highs = same_on_Perm (on_measured from highest-IsOrderFree) (λ m. m.1) p in
      let counts =
        Tallies-unique (λ x. count_le x (latencies (measured from os)))
          (λ x. count_le x (latencies (measured from rs))) 0 h.bounds h.counts k.counts h.total
          (λ x. same_on_Perm (count_le-IsOrderFree from x) (λ n. n) p) u.tallies
          (rw (b, t) v.tallies) in
      Histogram-ext h k b counts t (u.sum_exact ∙ ap pos sums ∙ sym v.sum_exact)
        (u.min_exact ∙ lows ∙ sym v.min_exact) (u.max_exact ∙ highs ∙ sym v.max_exact)

  agree :
      (s t : RunStats) (before : Text)
      → s.latency.bounds ≡ t.latency.bounds
      → Counts from before os s
      → Counts from before rs t
      → Agree s t
  agree s t before b c d =
      let totals = c.total ∙ same_number ∙ sym d.total in
      record {
        total = totals;
        successful = c.successful ∙ same_count succeeded ∙ sym d.successful;
        failures = c.failures ∙ same_count failed ∙ sym d.failures;
        per_kind = λ k h. c.per_kind k h ∙ same_count (has_kind k) ∙ sym (d.per_kind k h);
        latency =
            same_latencies s.latency t.latency b
              (c.latency.total_length
                ∙ same_on_Perm (on_measured from lowest-IsOrderFree) (λ m. m.0) p
                ∙ sym d.latency.total_length)
              c.latency d.latency;
      }

  -- Two runs that begin with the same counters, all at zero, and record the same operations in any
  -- two orders come to the same counts of operations and the same latency histogram, as long as no
  -- counter overflows.
  pub record_all-Agree :
      (before : Text) (s : RunStats)
      → Counts from before [] s
      → HaveRoom from os
      → HaveRoom from rs
      → Agree (record_all os s) (record_all rs s)
  record_all-Agree before s c room room' =
      agree (record_all os s) (record_all rs s) before
        (record_all-bounds os s ∙ sym (record_all-bounds rs s))
        (record_all-Counts from before os s c room) (record_all-Counts from before rs s c room')
