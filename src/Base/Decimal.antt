-- ===== src/Base/Decimal.antt =====
-- How Go's fmt writes an integer in base ten, and a reader of such texts.
use Prim.Native.Nat.{ℕ, zero, suc, ◌+◌, ◌-◌, ◌*◌, ◌/◌, ◌%◌, ◌<◌}
use mathlib.Core.Path.{◌≡◌, refl, ap, ◌∙◌}
use mathlib.Core.Bool.{Bool, true, false, not, ◌&&◌}
use mathlib.Core.Option.{Option, none, some}
use mathlib.Core.List.{[], ◌∷◌, ◌++◌}
use native.Mathlib.Omega.{arith}
use pg_gobench.Base.Tests.{leb, ltb, ◌==◌, if◌then◌else◌, Bool-cases}
use pg_gobench.Base.Int.{ℤ, pos, negsuc}
use mathlib.Core.Logic.{◌≢◌, inl, inr}
use pg_gobench.Base.Errors.{Text}

-- The digits of a number in front of a text, on fuel: a number below the fuel needs fewer rounds.
decimal_from : ℕ → ℕ → Text → Text
decimal_from zero n out = out
decimal_from (suc fuel) n out =
    let more = decimal_from fuel (n / 10) ((48 + n % 10) ∷ out) in
    if ltb n 10 then (48 + n) ∷ out else more

pub decimal : ℕ → Text
unfolding decimal_from
decimal n = decimal_from (suc n) n []

unfoldable pub format_int : ℤ → Text
unfolding decimal
format_int (pos n) = decimal n
format_int (negsuc n) = 45 ∷ decimal (suc n)

are_digits : Text → Bool
are_digits [] = true
are_digits (c ∷ s) = (leb 48 c && leb c 57) && are_digits s

digits_value : ℕ → Text → ℕ
digits_value n [] = n
digits_value n (c ∷ s) = digits_value (n * 10 + (c - 48)) s

pub read_digits : Text → Option ℕ
unfolding are_digits digits_value
read_digits [] = none
read_digits (c ∷ s) = if are_digits (c ∷ s) then some (digits_value 0 (c ∷ s)) else none

negated : Option ℕ → Option ℤ
negated (some (suc n)) = some (negsuc n)
negated _ = none

unsigned : Option ℕ → Option ℤ
unsigned (some n) = some (pos n)
unsigned none = none

unfoldable pub read_int : Text → Option ℤ
unfolding read_digits negated unsigned
read_int [] = none
read_int (c ∷ s) = if c == 45 then negated (read_digits s) else unsigned (read_digits (c ∷ s))

decimal_from-read :
    (fuel n : ℕ) (out : Text)
    → n < fuel
    → digits_value 0 (decimal_from fuel n out) ≡ digits_value n out
unfolding decimal_from digits_value
decimal_from-read zero n out l = absurd (omega arith)
decimal_from-read (suc fuel) n out l = elim (Bool-cases (ltb n 10)) [
  | inl t ↦
      let same : 0 * 10 + (48 + n - 48) ≡ n = omega arith in
      rw t (ap (λ k. digits_value k out) same)
  | inr f ↦
      let whole : n / 10 * 10 + (48 + n % 10 - 48) ≡ n = omega arith in
      rw f (
        decimal_from-read fuel (n / 10) ((48 + n % 10) ∷ out) (ground (arith, f, l))
        ∙ ap (λ k. digits_value k out) whole)
]

decimal_from-digits :
    (fuel n : ℕ) (out : Text) → are_digits out ≡ true → are_digits (decimal_from fuel n out) ≡ true
unfolding decimal_from are_digits
decimal_from-digits zero n out h = h
decimal_from-digits (suc fuel) n out h =
    let more = decimal_from-digits fuel (n / 10) ((48 + n % 10) ∷ out) (ground (arith, h)) in
    ground (arith, h, more)

decimal_from-ne-nil : (fuel n : ℕ) (out : Text) → n < fuel → decimal_from fuel n out ≢ []
unfolding decimal_from
decimal_from-ne-nil zero n out l = absurd (omega arith)
decimal_from-ne-nil (suc fuel) n out l = elim (Bool-cases (ltb n 10)) [
  | inl t ↦ rw t (λ e. cc)
  | inr f ↦ rw f (decimal_from-ne-nil fuel (n / 10) ((48 + n % 10) ∷ out) (ground (arith, f, l)))
]

read_digits-value :
    (t : Text) → t ≢ [] → are_digits t ≡ true → read_digits t ≡ some (digits_value 0 t)
unfolding read_digits
read_digits-value [] n h = absurd (n refl)
read_digits-value (c ∷ s) n h = rw h refl

read_int-unsigned :
    (t : Text) → t ≢ [] → are_digits t ≡ true → read_int t ≡ unsigned (read_digits t)
unfolding read_int are_digits
read_int-unsigned [] n h = absurd (n refl)
read_int-unsigned (c ∷ s) n h = let other : (c == 45) ≡ false = ground (arith, h) in rw other refl

decimal-digits : (n : ℕ) → are_digits (decimal n) ≡ true
unfolding decimal are_digits
decimal-digits n = decimal_from-digits (suc n) n [] refl

decimal-ne-nil : (n : ℕ) → decimal n ≢ []
unfolding decimal
decimal-ne-nil n = decimal_from-ne-nil (suc n) n [] (omega arith)

read_digits-decimal : (n : ℕ) → read_digits (decimal n) ≡ some n
unfolding decimal digits_value
read_digits-decimal n =
    read_digits-value (decimal n) (decimal-ne-nil n) (decimal-digits n)
    ∙ ap some (decimal_from-read (suc n) n [] (omega arith))

-- What is written is read back.
pub read_int-format_int : (z : ℤ) → read_int (format_int z) ≡ some z
unfolding format_int read_int
read_int-format_int (pos n) =
    read_int-unsigned (decimal n) (decimal-ne-nil n) (decimal-digits n)
    ∙ ap unsigned (read_digits-decimal n)
read_int-format_int (negsuc n) = ap negated (read_digits-decimal (suc n))

-- The text has none of the bytes.
abbrev pub lacks : ℕ → Text → Bool
lacks b [] = true
lacks b (c ∷ s) = not (c == b) && lacks b s

pub lacks-append :
    (b : ℕ) (s t : Text) → lacks b s ≡ true → lacks b t ≡ true → lacks b (s ++ t) ≡ true
lacks-append b [] t h k = k
lacks-append b (c ∷ s) t h k = ground (arith, lacks-append b s t, h, k)

digits-lacks : (b : ℕ) (t : Text) → b < 48 → are_digits t ≡ true → lacks b t ≡ true
unfolding are_digits
digits-lacks b [] l h = refl
digits-lacks b (c ∷ s) l h = ground (arith, digits-lacks b s l, h)

-- A written integer has no byte below the minus sign, such as a space or a line end.
pub format_int-lacks : (b : ℕ) (z : ℤ) → b < 45 → lacks b (format_int z) ≡ true
unfolding format_int
format_int-lacks b (pos n) l = digits-lacks b (decimal n) (omega arith) (decimal-digits n)
format_int-lacks b (negsuc n) l =
    let tail = digits-lacks b (decimal (suc n)) (omega arith) (decimal-digits (suc n)) in
    ground (arith, tail)
