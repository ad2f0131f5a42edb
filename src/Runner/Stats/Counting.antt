-- ===== src/Runner/Stats/Counting.antt =====
-- The counters of runStats are those of the operations that completed after the warmup.
use pg_gobench.Base.{
  ℕ, suc, ◌+◌, ◌<◌, ◌≡◌, refl, sym, ap, ◌∙◌, inl, inr, Bool, true, false, not, ◌&&◌, List, [], ◌∷◌,
  arith, ◌==◌, if◌then◌else◌, Bool-cases, length, get_or, update_at, replicate, ℤ, pos, pos_part,
  ◌+ℤ◌, ltb_ℤ, leb_ℤ, uint64_mod, int64_half, Text,
}
use pg_gobench.Runner.Histogram.{add_uint64, new_latency_histogram}
use pg_gobench.Runner.Histogram.Observations.{Represents, list_sum, record_latency-Represents}
use pg_gobench.Runner.Stats.{
  RunStats, new_run_stats, operation_kind_count, note_error, count_operation, record_operation,
  is_none,
}
use pg_gobench.Runner.Stats.Operations.{
  Operation, measured, count_if, succeeded, failed, has_kind, newest_error, latencies,
  length-update_at, get_or-update_at, get_or-replicate, count_if-le, length-measured-le,
  length-latencies, succeeded_or_failed,
}

-- What the counters say of the operations, the newest one first.
pub record Counts (from : ℤ) (before : Text) (os : List Operation) (s : RunStats) : Type 0 where
  pub same_start : s.measurement_started_at ≡ from
  pub total : s.total_operations ≡ length (measured from os)
  pub successful : s.successful_operations ≡ count_if succeeded (measured from os)
  pub failures : s.failed_operations ≡ count_if failed (measured from os)
  pub kinds : length s.per_kind ≡ operation_kind_count
  pub per_kind :
      (k : ℕ)
      → k < operation_kind_count
      → get_or s.per_kind k 0 ≡ count_if (has_kind k) (measured from os)
  pub latency : Represents s.latency (latencies (measured from os))
  pub latest_error : s.latest_error ≡ newest_error before os

-- The counters have room for one more operation.
abbrev pub HasRoomFor : ℤ → Operation → List Operation → Type 0
HasRoomFor from o os =
    (suc (length os) < uint64_mod)
    × (pos_part o.latency + list_sum (latencies (measured from os)) < int64_half)

abbrev pub record_one : Operation → RunStats → RunStats
record_one o = record_operation o.kind o.latency o.completed_at o.error

abbrev noted : Operation → RunStats → RunStats
noted o s = record s { latest_error = note_error o.error s.latest_error }

record_one-early :
    (o : Operation) (s : RunStats)
    → ltb_ℤ o.completed_at s.measurement_started_at ≡ true
    → record_one o s ≡ noted o s
unfolding record_operation
record_one-early o s e = rw e

record_one-late :
    (o : Operation) (s : RunStats)
    → ltb_ℤ o.completed_at s.measurement_started_at ≡ false
    → record_one o s ≡ count_operation o.kind o.latency o.error (noted o s)
unfolding record_operation
record_one-late o s e = rw e

measured-early :
    (from : ℤ) (o : Operation) (os : List Operation)
    → ltb_ℤ o.completed_at from ≡ true
    → measured from (o ∷ os) ≡ measured from os
unfolding measured
measured-early from o os e = rw e

measured-late :
    (from : ℤ) (o : Operation) (os : List Operation)
    → ltb_ℤ o.completed_at from ≡ false
    → measured from (o ∷ os) ≡ o ∷ measured from os
unfolding measured
measured-late from o os e = rw e

warming_Counts :
    (from : ℤ) (before : Text) (o : Operation) (os : List Operation) (s : RunStats)
    → ltb_ℤ o.completed_at from ≡ true
    → Counts from before os s
    → Counts from before (o ∷ os) (noted o s)
unfolding newest_error
warming_Counts from before o os s early c =
    let same = measured-early from o os early in
    record {
      same_start = c.same_start;
      total = rw same c.total;
      successful = rw same c.successful;
      failures = rw same c.failures;
      kinds = c.kinds;
      per_kind = rw same c.per_kind;
      latency = rw same c.latency;
      latest_error = ap (note_error o.error) c.latest_error;
    }

add_one : (n m : ℕ) → n ≡ m → suc m < uint64_mod → add_uint64 n 1 ≡ suc m
add_one n m e h = omega arith

-- A counter that goes up when an operation passes a test counts those that do.
count_step :
    (p : Operation → Bool) (o : Operation) (ms : List Operation) (n : ℕ)
    → n ≡ count_if p ms
    → suc (length ms) < uint64_mod
    → (if p o then add_uint64 n 1 else n) ≡ count_if p (o ∷ ms)
count_step p o ms n e h = elim (Bool-cases (p o)) [
  | inl t ↦ rw t (add_one n (count_if p ms) e (omega (arith, count_if-le p ms)))
  | inr f ↦ rw f e
]

abbrev in_range : ℤ → Bool
in_range z = leb_ℤ (pos 0) z && ltb_ℤ z (pos operation_kind_count)

in_range-hit :
    (z : ℤ) (k : ℕ) → in_range z ≡ true → (leb_ℤ (pos 0) z && (pos_part z == k)) ≡ (pos_part z == k)
in_range-hit z k h = ground arith

in_range-miss :
    (z : ℤ) (k : ℕ)
    → k < operation_kind_count
    → in_range z ≡ false
    → (leb_ℤ (pos 0) z && (pos_part z == k)) ≡ false
in_range-miss z k l h = ground arith

if-not : (b : Bool) (x y : ℕ) → (if b then x else y) ≡ (if not b then y else x)
if-not true x y = refl
if-not false x y = refl

length-if_update :
    (b : Bool) (f : ℕ → ℕ) (i : ℕ) (xs : List ℕ)
    → length (if b then update_at f i xs else xs) ≡ length xs
length-if_update true f i xs = length-update_at f i xs
length-if_update false f i xs = refl

kind_step :
    (o : Operation) (ms : List Operation) (counts : List ℕ) (k : ℕ)
    → length counts ≡ operation_kind_count
    → k < operation_kind_count
    → get_or counts k 0 ≡ count_if (has_kind k) ms
    → suc (length ms) < uint64_mod
    → get_or
        (if leb_ℤ (pos 0) o.kind && ltb_ℤ o.kind (pos operation_kind_count)
          then update_at (λ n. add_uint64 n 1) (pos_part o.kind) counts
          else counts)
        k
        0
      ≡ count_if (has_kind k) (o ∷ ms)
kind_step o ms counts k l h e w =
    let hit = count_step (has_kind k) o ms (get_or counts k 0) e w in
    let updated = get_or-update_at (λ n. add_uint64 n 1) (pos_part o.kind) k counts (omega arith) in
    elim (Bool-cases (in_range o.kind)) [
      | inl t ↦
          let choose =
            λ (b : Bool). if b then add_uint64 (get_or counts k 0) 1 else get_or counts k 0 in
          rw t (updated ∙ (ap choose (sym (in_range-hit o.kind k t)) ∙ hit))
      | inr f ↦
          let choose =
            λ (b : Bool). if b then add_uint64 (get_or counts k 0) 1 else get_or counts k 0 in
          rw f (ap choose (sym (in_range-miss o.kind k h f)) ∙ hit)
    ]

measured_Counts :
    (from : ℤ) (before : Text) (o : Operation) (os : List Operation) (s : RunStats)
    → ltb_ℤ o.completed_at from ≡ false
    → HasRoomFor from o os
    → Counts from before os s
    → Counts from before (o ∷ os) (count_operation o.kind o.latency o.error (noted o s))
unfolding count_operation newest_error
measured_Counts from before o os s late room c =
    let same = measured-late from o os late in
    let ms = measured from os in
    let w : suc (length ms) < uint64_mod = omega (arith, length-measured-le from os, room.0) in
    record {
      same_start = c.same_start;
      total = rw same (add_one s.total_operations (length ms) c.total w);
      successful = rw same (count_step succeeded o ms s.successful_operations c.successful w);
      failures = rw same (
          if-not (is_none o.error) s.failed_operations (add_uint64 s.failed_operations 1)
          ∙ count_step failed o ms s.failed_operations c.failures w);
      kinds = length-if_update (in_range o.kind) _ _ s.per_kind ∙ c.kinds;
      per_kind = rw same (λ k h. kind_step o ms s.per_kind k c.kinds h (c.per_kind k h) w);
      latency = rw same (
          record_latency-Represents o.latency s.latency (latencies ms) c.latency
            (rw length-latencies w, room.1));
      latest_error = ap (note_error o.error) c.latest_error;
    }

-- The operations recorded one after the other, the newest one first in the list.
unfoldable pub record_all : List Operation → RunStats → RunStats
record_all [] s = s
record_all (o ∷ os) s = record_one o (record_all os s)

-- Every operation had room when it was recorded.
abbrev pub HaveRoom : ℤ → List Operation → Type 0
HaveRoom from [] = Unit
HaveRoom from (o ∷ os) = HasRoomFor from o os × HaveRoom from os

record_one-Counts :
    (from : ℤ) (before : Text) (o : Operation) (os : List Operation) (s : RunStats)
    → HasRoomFor from o os
    → Counts from before os s
    → Counts from before (o ∷ os) (record_one o s)
record_one-Counts from before o os s room c = elim (Bool-cases (ltb_ℤ o.completed_at from)) [
  | inl early ↦
      rw (record_one-early o s (rw c.same_start early)) (warming_Counts from before o os s early c)
  | inr late ↦
      rw (record_one-late o s (rw c.same_start late))
        (measured_Counts from before o os s late room c)
]

-- After any sequence of recorded operations that overflows no counter: the total is the number of
-- operations that completed once the warmup was over, the successes and failures are those of them
-- with and without an error, each kind has its number, the histogram stands for their latencies, and
-- the latest error is that of the newest failed operation, warmup or not.
pub record_all-Counts :
    (from : ℤ) (before : Text) (os : List Operation) (s : RunStats)
    → Counts from before [] s
    → HaveRoom from os
    → Counts from before os (record_all os s)
unfolding record_all
record_all-Counts from before [] s c room = c
record_all-Counts from before (o ∷ os) s c room =
    record_one-Counts from before o os (record_all os s) room.0
      (record_all-Counts from before os s c room.1)

-- The successes and the failures of a run make up its total.
pub total-eq-add :
    (from : ℤ) (before : Text) (os : List Operation) (s : RunStats)
    → Counts from before os s
    → s.total_operations ≡ s.successful_operations + s.failed_operations
total-eq-add from before os s c =
    omega (arith, c.total, c.successful, c.failures, succeeded_or_failed (measured from os))

-- A new run has counted nothing.
pub new_run_stats-Counts :
    (started_at warmup clients : ℤ)
    → Represents new_latency_histogram []
    → Counts (started_at +ℤ warmup) [] [] (new_run_stats started_at warmup clients)
unfolding new_run_stats measured newest_error
new_run_stats-Counts started_at warmup clients h = record {
  same_start = refl;
  total = refl;
  successful = refl;
  failures = refl;
  kinds = refl;
  per_kind = zeros;
  latency = h;
  latest_error = refl;
}
  where
    zeros : (k : ℕ) → k < 9 → get_or {A = ℕ} (replicate 9 0) k 0 ≡ 0
    zeros k h = get_or-replicate 9 k
