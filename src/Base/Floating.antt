-- ===== src/Base/Floating.antt =====
-- float64 and the operations on it that the program uses. The language has no floats: a model takes
-- a value of this record, and relies on no law of it.
use Prim.Native.Nat.{ℕ}
use mathlib.Core.Bool.{Bool}
use pg_gobench.Base.Int.{ℤ}

pub record Floats : Type 1 where
  pub F : Type 0
  pub zero : F
  pub is_positive : F → Bool
  pub of_uint64 : ℕ → F
  pub of_int64 : ℤ → F
  pub mul : F → F → F
  pub div : F → F → F
  pub ceil : F → F
  pub to_uint64 : F → ℕ
  pub seconds : ℤ → F  -- Duration.Seconds
