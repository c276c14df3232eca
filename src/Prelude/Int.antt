-- ===== src/Prelude/Int.antt =====
-- Go's signed integers: the integers over the native numbers, and the wrap-around of `int64`.
-- Sums and orders go through the two parts of an integer, which are numbers that `omega` reads.
use Prim.Native.Nat.{ℕ, suc, ◌+◌, ◌-◌, ◌*◌, ◌%◌, ◌/◌, ◌^◌, ◌≤◌, ◌<◌}
use mathlib.Core.Path.{◌≡◌}
use mathlib.Core.Bool.{Bool}
use native.Mathlib.Omega.{arith}
use stream_weave.Prelude.Tests.{ltb, leb, ◌==◌, if◌then◌else◌}

-- `negsuc n` is -(n + 1).
pub data ℤ : Type 0 where
  pos : ℕ → ℤ
  negsuc : ℕ → ℤ

abbrev pub pos_part : ℤ → ℕ
pos_part (pos n) = n
pos_part (negsuc n) = 0

abbrev pub neg_part : ℤ → ℕ
neg_part (pos n) = 0
neg_part (negsuc n) = suc n

-- a - b, as an integer.
abbrev pub sub_ℕ : ℕ → ℕ → ℤ
sub_ℕ a b = if leb b a then pos (a - b) else negsuc (b - a - 1)

abbrev pub ltb_ℤ : ℤ → ℤ → Bool
ltb_ℤ a b = ltb (pos_part a + neg_part b) (pos_part b + neg_part a)

abbrev pub eqb_ℤ : ℤ → ℤ → Bool
eqb_ℤ a b = pos_part a + neg_part b == pos_part b + neg_part a

-- The two's complement value of the low 64 bits.
pub signed64 : ℕ → ℤ
signed64 r = if ltb r (2 ^ 63) then pos r else negsuc (2 ^ 64 - 1 - r)

-- The `int64` that an exact result wraps to.
unfoldable pub i64 : ℤ → ℤ
unfolding signed64
i64 z = signed64 ((pos_part z % 2 ^ 64 + 2 ^ 64 - neg_part z % 2 ^ 64) % 2 ^ 64)

infixl 65 ◌+ℤ◌ ◌-ℤ◌
infixl 70 ◌*ℤ◌
-- a + b, a - b and a * b of `int64` operands
unfoldable pub ◌+ℤ◌ : ℤ → ℤ → ℤ
a +ℤ b = i64 (sub_ℕ (pos_part a + pos_part b) (neg_part a + neg_part b))

unfoldable pub ◌-ℤ◌ : ℤ → ℤ → ℤ
a -ℤ b = i64 (sub_ℕ (pos_part a + neg_part b) (neg_part a + pos_part b))

unfoldable pub ◌*ℤ◌ : ℤ → ℤ → ℤ
a *ℤ b = i64 (
    sub_ℕ (pos_part a * pos_part b + neg_part a * neg_part b)
      (pos_part a * neg_part b + neg_part a * pos_part b))

-- a / b for b > 0, rounding towards zero
unfoldable pub quot : ℤ → ℕ → ℤ
quot a b = sub_ℕ (pos_part a / b) (neg_part a / b)

-- A natural number below 2^63 is its own `int64`.
pub i64_pos : (n : ℕ) → n < 2 ^ 63 → i64 (pos n) ≡ pos n
unfolding i64
i64_pos n h = ground arith

sub_ℕ_exact : (m n d : ℕ) → m ≡ n + d → sub_ℕ m n ≡ pos d
sub_ℕ_exact m n d h = ground arith

pub +ℤ_pos : (a b : ℕ) → a + b < 2 ^ 63 → pos a +ℤ pos b ≡ pos (a + b)
unfolding ◌+ℤ◌
+ℤ_pos a b h = rw (sub_ℕ_exact (a + b) (0 + 0) (a + b) (omega arith)) (i64_pos (a + b) h)

pub -ℤ_pos : (a b : ℕ) → a < 2 ^ 63 → b ≤ a → pos a -ℤ pos b ≡ pos (a - b)
unfolding ◌-ℤ◌
-ℤ_pos a b h le =
    rw (sub_ℕ_exact (a + 0) (0 + b) (a - b) (omega arith)) (i64_pos (a - b) (omega arith))

pub *ℤ_pos : (a b : ℕ) → a * b < 2 ^ 63 → pos a *ℤ pos b ≡ pos (a * b)
unfolding ◌*ℤ◌
*ℤ_pos a b h =
    rw (sub_ℕ_exact (a * b + 0 * 0) (a * 0 + 0 * b) (a * b) (omega arith)) (i64_pos (a * b) h)
