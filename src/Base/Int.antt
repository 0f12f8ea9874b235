-- ===== src/Base/Int.antt =====
-- Signed integers over the native numbers, under the library's names (its ℤ stands on the unary ℕ),
-- and the 64-bit signed integers that the program computes with.
use Prim.Native.Nat.{ℕ, zero, suc, ◌+◌, ◌-◌, ◌*◌, ◌/◌, ◌%◌, ◌^◌}
use mathlib.Core.Bool.{Bool, ◌&&◌}
use pycompile.Base.Tests.{ltb, leb, if◌then◌else◌}

-- `negsuc n` is -(n + 1).
pub data ℤ : Type 0 where
  pos : ℕ → ℤ
  negsuc : ℕ → ℤ

abbrev pub pos_part : ℤ → ℕ
pos_part (pos n) = n
pos_part (negsuc n) = 0

abbrev pub neg_part : ℤ → ℕ
neg_part (pos n) = 0
neg_part (negsuc n) = suc n

-- a - b, as an integer.
abbrev pub sub_ℕ : ℕ → ℕ → ℤ
sub_ℕ a b = if leb b a then pos (a - b) else negsuc (b - a - 1)

infixl 70 ◌*ℤ◌
unfoldable pub ◌*ℤ◌ : ℤ → ℤ → ℤ
a *ℤ b =
    sub_ℕ (pos_part a * pos_part b + neg_part a * neg_part b)
      (pos_part a * neg_part b + neg_part a * pos_part b)

abbrev pub neg : ℕ → ℤ
neg zero = pos 0
neg (suc n) = negsuc n

infixl 60 ◌+ℤ◌ ◌-ℤ◌
unfoldable pub ◌+ℤ◌ : ℤ → ℤ → ℤ
a +ℤ b = sub_ℕ (pos_part a + pos_part b) (neg_part a + neg_part b)

unfoldable pub ◌-ℤ◌ : ℤ → ℤ → ℤ
a -ℤ b = sub_ℕ (pos_part a + neg_part b) (neg_part a + pos_part b)

-- `/` and `%` of C++, which round towards zero, for a divisor that is not zero.
unfoldable pub quot_ℤ : ℤ → ℤ → ℤ
quot_ℤ (pos a) (pos b) = pos (a / b)
quot_ℤ (pos a) (negsuc b) = neg (a / suc b)
quot_ℤ (negsuc a) (pos b) = neg (suc a / b)
quot_ℤ (negsuc a) (negsuc b) = pos (suc a / suc b)

unfoldable pub rem_ℤ : ℤ → ℤ → ℤ
rem_ℤ (pos a) (pos b) = pos (a % b)
rem_ℤ (pos a) (negsuc b) = pos (a % suc b)
rem_ℤ (negsuc a) (pos b) = neg (suc a % b)
rem_ℤ (negsuc a) (negsuc b) = neg (suc a % suc b)

-- `~`
abbrev pub complement : ℤ → ℤ
complement (pos n) = negsuc n
complement (negsuc n) = pos n

abbrev pub is_zero_ℤ : ℤ → Bool
is_zero_ℤ a = leb (pos_part a + neg_part a) 0

-- The numbers of `int64_t`.
abbrev pub fits : ℤ → Bool
fits a = ltb (pos_part a) (2 ^ 63) && leb (neg_part a) (2 ^ 63)

abbrev pub ltb_ℤ : ℤ → ℤ → Bool
ltb_ℤ a b = ltb (pos_part a + neg_part b) (pos_part b + neg_part a)

abbrev pub leb_ℤ : ℤ → ℤ → Bool
leb_ℤ a b = leb (pos_part a + neg_part b) (pos_part b + neg_part a)

-- The conversion to `size_t`: a negative number is 2 ^ 64 less its size.
unfoldable pub as_size : ℤ → ℕ
as_size (pos n) = n
as_size (negsuc n) = 2 ^ 64 - suc n
