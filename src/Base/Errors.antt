-- ===== src/Base/Errors.antt =====
-- Go's errors: a tree of messages, wraps and sentinels, with `errors.Is` on it; and the results of
-- fallible functions.
use Prim.Native.Char.{code}
use Prim.Native.Nat.{ℕ}
use Prim.Native.String.{String}
use mathlib.Core.Path.{◌≡◌, refl}
use mathlib.Core.Logic.{◌↔◌, ◌⊎◌, inl, inr}
use mathlib.Core.Bool.{Bool, true, false, ◌&&◌, ◌||◌}
use native.Mathlib.Omega.{arith}
use pg_gobench.Base.Tests.{◌==◌}
use mathlib.Core.Option.{Option, none, some}
use mathlib.Core.List.{List, [], ◌∷◌, ◌++◌}

-- A Go string as its bytes; a literal in ASCII by its code points.
abbrev pub Text : Type 0
Text = List ℕ

abbrev pub codes : String → Text
codes String.[] = []
codes (String.◌∷◌ c s) = code c ∷ codes s

-- The sentinel values that the program compares errors with.
pub data Sentinel : Type 0 where
  canceled deadline_exceeded run_active run_not_running tx_done server_closed eof : Sentinel

abbrev pub same_sentinel : Sentinel → Sentinel → Bool
same_sentinel canceled canceled = true
same_sentinel deadline_exceeded deadline_exceeded = true
same_sentinel run_active run_active = true
same_sentinel run_not_running run_not_running = true
same_sentinel tx_done tx_done = true
same_sentinel server_closed server_closed = true
same_sentinel eof eof = true
same_sentinel _ _ = false

-- `plain` is errors.New or fmt.Errorf with no %w; `wrap p e` is fmt.Errorf("p: %w", e); `joined` is
-- errors.Join; `postgres code text` is a *pgconn.PgError; `counted` is a countedOperationError.
pub data Error : Type 0 where
  plain : Text → Error
  sentinel : Sentinel → Error
  wrap : Text → Error → Error
  joined : Error → Error → Error
  postgres : Text → Text → Error
  counted : Error → Error

abbrev pub sentinel_text : Sentinel → Text
sentinel_text canceled = codes "context canceled"
sentinel_text deadline_exceeded = codes "context deadline exceeded"
sentinel_text run_active = codes "benchmark run already active"
sentinel_text run_not_running = codes "benchmark run is not running"
sentinel_text tx_done = codes "sql: transaction has already been committed or rolled back"
sentinel_text server_closed = codes "http: Server closed"
sentinel_text eof = codes "EOF"

-- The method Error().
unfoldable pub message : Error → Text
message (plain t) = t
message (sentinel s) = sentinel_text s
message (wrap p e) = p ++ (codes ": " ++ message e)
message (joined a b) = message a ++ (10 ∷ message b)
message (postgres c t) = t
message (counted e) = message e

-- errors.Is(e, s) for a sentinel s.
unfoldable pub errors_is : Sentinel → Error → Bool
errors_is s (plain t) = false
errors_is s (sentinel r) = same_sentinel r s
errors_is s (wrap p e) = errors_is s e
errors_is s (joined a b) = errors_is s a || errors_is s b
errors_is s (postgres c t) = false
errors_is s (counted e) = errors_is s e

pub data Result {ℓ} (A : Type ℓ) : Type ℓ where
  ok : A → Result A
  err : Error → Result A

-- `v, err := f(); if err != nil { return err }`, and the same where there is no value.
infixl 5 ◌>>=◌ ◌>>◌
abbrev pub ◌>>=◌ {ℓ κ} : {V : Type ℓ} {W : Type κ} → Result V → (V → Result W) → Result W
err failure >>= next = err failure
ok v >>= next = next v

abbrev pub ◌>>◌ {ℓ} : {W : Type ℓ} → Result (Unit {0}) → Result W → Result W
first >> second = first >>= (λ _. second)

-- `if err := f(); err != nil { return err }`.
abbrev pub check : Option Error → Result (Unit {0})
check none = ok tt
check (some e) = err e

-- `if test { return errors.New(text) }`.
abbrev pub refuse_if : Bool → Text → Result (Unit {0})
refuse_if true t = err (plain t)
refuse_if false t = ok tt

-- `if err != nil { return fmt.Errorf("label: %w", err) }`.
abbrev pub labelled {ℓ} : {V : Type ℓ} → Text → Result V → Result V
labelled label (ok v) = ok v
labelled label (err e) = err (wrap label e)

pub labelled-ok {ℓ} :
    {V : Type ℓ} (label : Text) (r : Result V) {v : V} → labelled label r ≡ ok v → r ≡ ok v
labelled-ok label (ok w) h = h
labelled-ok label (err e) h = cc

-- A successful chain has passed through a successful first part.
pub >>=-ok {ℓ κ} :
    {V : Type ℓ} {W : Type κ} (r : Result V) (next : V → Result W) {w : W}
    → (r >>= next) ≡ ok w
    → (v : V) × (r ≡ ok v) × (next v ≡ ok w)
>>=-ok (err failure) next e = cc
>>=-ok (ok v) next e = (v, refl, e)

-- A sequence of checks passes when each of them does.
pub >>-ok_iff : (m k : Result (Unit {0})) → ((m >> k) ≡ ok tt) ↔ ((m ≡ ok tt) × (k ≡ ok tt))
>>-ok_iff (ok tt) k = (λ h. (refl, h), λ h. h.1)
>>-ok_iff (err e) k = (λ h. cc, λ h. cc)

pub refuse_if-ok_iff : (b : Bool) (t : Text) → (refuse_if b t ≡ ok tt) ↔ (b ≡ false)
refuse_if-ok_iff true t = (λ h. cc, λ h. cc)
refuse_if-ok_iff false t = (λ h. refl, λ h. refl)

-- What follows a guard runs only when the guard lets it.
pub refuse_if-passes {ℓ} :
    {V : Type ℓ} (b : Bool) (t : Text) (m : Result V) {v : V}
    → (refuse_if b t >> m) ≡ ok v
    → (b ≡ false) × (m ≡ ok v)
refuse_if-passes true t m h = cc
refuse_if-passes false t m h = (refl, h)

-- A result is one of its two cases.
pub Result-cases {ℓ} :
    {A : Type ℓ} (r : Result A) → ((a : A) × (r ≡ ok a)) ⊎ ((e : Error) × (r ≡ err e))
Result-cases (ok a) = inl (a, refl)
Result-cases (err e) = inr (e, refl)

abbrev pub is_empty : Text → Bool
is_empty [] = true
is_empty (c ∷ s) = false

unfoldable pub bytes_eq : Text → Text → Bool
bytes_eq [] [] = true
bytes_eq (c ∷ s) (d ∷ t) = (c == d) && bytes_eq s t
bytes_eq _ _ = false

pub bytes_eq_iff : (s t : Text) → (bytes_eq s t ≡ true) ↔ (s ≡ t)
unfolding bytes_eq
bytes_eq_iff [] [] = (λ h. refl, λ h. refl)
bytes_eq_iff [] (d ∷ t) = ground arith
bytes_eq_iff (c ∷ s) [] = ground arith
bytes_eq_iff (c ∷ s) (d ∷ t) = ground (arith, bytes_eq_iff s t)
