-- ===== src/Runner/Stats/Operations.antt =====
-- Lists of recorded operations, and what is counted of them.
use pg_gobench.Base.{
  ℕ, zero, suc, ◌+◌, ◌≤◌, ◌<◌, ◌≡◌, refl, ap, Bool, not, ◌&&◌, Option, List, [], ◌∷◌, arith, ◌==◌,
  if◌then◌else◌, length, get_or, update_at, replicate, ℤ, pos, pos_part, ltb_ℤ, leb_ℤ, Text, Error,
}
use pg_gobench.Runner.Stats.{note_error, is_none}

-- One call of record.
pub record Operation : Type 0 where
  pub kind : ℤ
  pub latency : ℤ
  pub completed_at : ℤ
  pub error : Option Error

-- The operations that completed when the measurement had begun.
unfoldable pub measured : ℤ → List Operation → List Operation
measured from [] = []
measured from (o ∷ os) =
    let rest = measured from os in if ltb_ℤ o.completed_at from then rest else o ∷ rest

abbrev pub count_if {ℓ} : {A : Type ℓ} → (A → Bool) → List A → ℕ
count_if p [] = 0
count_if p (x ∷ xs) = let rest = count_if p xs in if p x then suc rest else rest

abbrev pub succeeded : Operation → Bool
succeeded o = is_none o.error

abbrev pub failed : Operation → Bool
failed o = not (is_none o.error)

abbrev pub has_kind : ℕ → Operation → Bool
has_kind k o = leb_ℤ (pos 0) o.kind && (pos_part o.kind == k)

-- The text of the newest error, or the text that was there before.
unfoldable pub newest_error : Text → List Operation → Text
unfolding note_error
newest_error before [] = before
newest_error before (o ∷ os) = note_error o.error (newest_error before os)

abbrev pub latencies : List Operation → List ℕ
latencies [] = []
latencies (o ∷ os) = pos_part o.latency ∷ latencies os

pub length-update_at : (f : ℕ → ℕ) (i : ℕ) (xs : List ℕ) → length (update_at f i xs) ≡ length xs
length-update_at f i [] = refl
length-update_at f zero (x ∷ xs) = refl
length-update_at f (suc i) (x ∷ xs) = ap suc (length-update_at f i xs)

pub get_or-update_at :
    (f : ℕ → ℕ) (i j : ℕ) (xs : List ℕ)
    → j < length xs
    → get_or (update_at f i xs) j 0 ≡ (if i == j then f (get_or xs j 0) else get_or xs j 0)
get_or-update_at f i j [] h = absurd (omega arith)
get_or-update_at f zero zero (x ∷ xs) h = refl
get_or-update_at f zero (suc j) (x ∷ xs) h = ground arith
get_or-update_at f (suc i) zero (x ∷ xs) h = ground arith
get_or-update_at f (suc i) (suc j) (x ∷ xs) h =
    ground (arith, get_or-update_at f i j xs (omega arith))

pub get_or-replicate : (n k : ℕ) → get_or {A = ℕ} (replicate n 0) k 0 ≡ 0
get_or-replicate zero k = refl
get_or-replicate (suc n) zero = refl
get_or-replicate (suc n) (suc k) = get_or-replicate n k

pub count_if-le {ℓ} : {A : Type ℓ} (p : A → Bool) (xs : List A) → count_if p xs ≤ length xs
count_if-le p [] = omega arith
count_if-le p (x ∷ xs) = ground (arith, count_if-le p xs)

pub length-measured-le : (from : ℤ) (os : List Operation) → length (measured from os) ≤ length os
unfolding measured
length-measured-le from [] = omega arith
length-measured-le from (o ∷ os) = ground (arith, length-measured-le from os)

pub length-latencies : (os : List Operation) → length (latencies os) ≡ length os
length-latencies [] = refl
length-latencies (o ∷ os) = ap suc (length-latencies os)

-- Every list of operations splits into those that succeeded and those that failed.
pub succeeded_or_failed :
    (os : List Operation) → count_if succeeded os + count_if failed os ≡ length os
succeeded_or_failed [] = omega arith
succeeded_or_failed (o ∷ os) = ground (arith, succeeded_or_failed os)
