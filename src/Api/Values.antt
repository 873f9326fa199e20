-- ===== src/Api/Values.antt =====
-- The dynamic values of `any` fields, and the two's-complement and floating-point fields of the
-- api structs.
use durablefuture.Prelude.{ℕ, String, Bool}
use durablefuture.Prelude.Int.{ℤ}

-- A value of Go's `any`. The code under study compares it with nil and asserts that it is a string;
-- a value of any other dynamic type is passed on whole, and `other` tells such values apart.
pub data Any : Type 0 where
  nil : Any
  string : String → Any
  other : ℕ → Any

-- A float64 by its bit pattern. Its operations are parameters of the code that computes with it.
pub record Float64 : Type 0 where
  pub bits : ℕ

-- What the code calls on floats: conversions from and to int64, `*`, `-`, `math.Pow` and `<= 0`.
pub record FloatOps : Type 0 where
  pub of_int64 : ℤ → Float64
  pub to_int64 : Float64 → ℤ
  pub mul : Float64 → Float64 → Float64
  pub sub : Float64 → Float64 → Float64
  pub pow : Float64 → Float64 → Float64
  pub is_nonpositive : Float64 → Bool
  pub one : Float64
  pub two : Float64
