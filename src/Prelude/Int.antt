-- ===== src/Prelude/Int.antt =====
-- Signed integers over the native numbers, and the two's complement of Go's int32 and int64.
use Prim.Native.Nat.{ℕ, suc, ◌+◌, ◌-◌, ◌*◌, ◌/◌, ◌%◌, ◌^◌, ◌≤◌, ◌<◌}
use mathlib.Core.Path.{◌≡◌}
use mathlib.Core.Bool.{Bool}
use native.Mathlib.Omega.{arith}
use durablefuture.Prelude.Tests.{ltb, leb, nat_beq, if◌then◌else◌}

-- `negsuc n` is -(n + 1).
pub data ℤ : Type 0 where
  pos : ℕ → ℤ
  negsuc : ℕ → ℤ

abbrev pub pos_part : ℤ → ℕ
pos_part (pos n) = n
pos_part (negsuc n) = 0

abbrev pub neg_part : ℤ → ℕ
neg_part (pos n) = 0
neg_part (negsuc n) = suc n

abbrev pub sub_ℕ : ℕ → ℕ → ℤ
sub_ℕ a b = if leb b a then pos (a - b) else negsuc (b - a - 1)

infixl 65 ◌+ℤ◌ ◌-ℤ◌
infixl 70 ◌*ℤ◌
infix 50 ◌≤ℤ◌
unfoldable pub ◌+ℤ◌ : ℤ → ℤ → ℤ
a +ℤ b = sub_ℕ (pos_part a + pos_part b) (neg_part a + neg_part b)

unfoldable pub ◌-ℤ◌ : ℤ → ℤ → ℤ
a -ℤ b = sub_ℕ (pos_part a + neg_part b) (neg_part a + pos_part b)

unfoldable pub ◌*ℤ◌ : ℤ → ℤ → ℤ
a *ℤ b =
    sub_ℕ (pos_part a * pos_part b + neg_part a * neg_part b)
      (pos_part a * neg_part b + neg_part a * pos_part b)

-- Go's `/` by a positive number: it rounds towards zero.
unfoldable pub quot : ℤ → ℕ → ℤ
quot a k = sub_ℕ (pos_part a / k) (neg_part a / k)

abbrev pub ◌≤ℤ◌ : ℤ → ℤ → Type 0
a ≤ℤ b = pos_part a + neg_part b ≤ pos_part b + neg_part a

abbrev pub ltb_ℤ : ℤ → ℤ → Bool
ltb_ℤ a b = ltb (pos_part a + neg_part b) (pos_part b + neg_part a)

abbrev pub leb_ℤ : ℤ → ℤ → Bool
leb_ℤ a b = leb (pos_part a + neg_part b) (pos_part b + neg_part a)

abbrev pub beq_ℤ : ℤ → ℤ → Bool
beq_ℤ a b = nat_beq (pos_part a + neg_part b) (pos_part b + neg_part a)

abbrev pub min_ℤ : ℤ → ℤ → ℤ
min_ℤ a b = if ltb_ℤ b a then b else a

-- The value of a w-bit pattern, and the pattern of an integer.
abbrev of_bits : ℕ → ℕ → ℤ
of_bits half r = if ltb r half then pos r else negsuc (2 * half - r - 1)

abbrev to_bits : ℕ → ℤ → ℕ
to_bits half (pos n) = n % (2 * half)
to_bits half (negsuc n) = 2 * half - 1 - n % (2 * half)

unfoldable pub wrap32 : ℤ → ℤ
wrap32 a = of_bits (2 ^ 31) (to_bits (2 ^ 31) a)

unfoldable pub wrap64 : ℤ → ℤ
wrap64 a = of_bits (2 ^ 63) (to_bits (2 ^ 63) a)

pub wrap32-pos : (n : ℕ) → n < 2 ^ 31 → wrap32 (pos n) ≡ pos n
unfolding wrap32
wrap32-pos n h = ground arith

pub wrap64-pos : (n : ℕ) → n < 2 ^ 63 → wrap64 (pos n) ≡ pos n
unfolding wrap64
wrap64-pos n h = ground arith

pub -ℤ-pos : (a b : ℕ) → b ≤ a → pos a -ℤ pos b ≡ pos (a - b)
unfolding ◌-ℤ◌
-ℤ-pos a b h = ground arith

pub *ℤ-pos : (a b : ℕ) → pos a *ℤ pos b ≡ pos (a * b)
unfolding ◌*ℤ◌
*ℤ-pos a b = ground arith

pub +ℤ-pos : (a b : ℕ) → pos a +ℤ pos b ≡ pos (a + b)
unfolding ◌+ℤ◌
+ℤ-pos a b = ground arith

pub min_ℤ-le : (a b : ℤ) → min_ℤ a b ≤ℤ b
min_ℤ-le a b = ground arith
