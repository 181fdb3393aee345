-- ===== src/Prelude/Int.antt =====
-- Signed machine integers: an integer, and its two's complement pattern of `w` bits.
use Prim.Native.Nat.{ℕ, suc, ◌+◌, ◌-◌, ◌*◌, ◌^◌, ◌%◌, ◌<◌}
use mathlib.Core.Path.{◌≡◌}
use mathlib.Core.Bool.{Bool, true, false}
use native.Mathlib.Omega.{arith}
use ultipa_go_driver.Prelude.Tests.{ltb, leb, if◌then◌else◌, ◌==◌}

-- `negsuc n` is -(n + 1).
pub data ℤ : Type 0 where
  pos : ℕ → ℤ
  negsuc : ℕ → ℤ

-- The conversion to the unsigned type of `w` bits, which wraps.
unfoldable pub to_bits : ℕ → ℤ → ℕ
to_bits w (pos n) = n % 2 ^ w
to_bits w (negsuc n) = 2 ^ w - 1 - n % 2 ^ w

-- The signed reading of a pattern of `suc w` bits.
unfoldable pub of_bits : ℕ → ℕ → ℤ
of_bits w b = if ltb b (2 ^ w) then pos b else negsuc (2 ^ w * 2 - 1 - b)

-- The integer fits a signed type of `suc w` bits.
abbrev pub Fits : ℕ → ℤ → Type 0
Fits w (pos n) = n < 2 ^ w
Fits w (negsuc n) = n < 2 ^ w

pub of_bits-to_bits_32 : (z : ℤ) → Fits 31 z → of_bits 31 (to_bits 32 z) ≡ z
unfolding of_bits to_bits
of_bits-to_bits_32 (pos n) h = ground arith
of_bits-to_bits_32 (negsuc n) h = ground arith

pub of_bits-to_bits_64 : (z : ℤ) → Fits 63 z → of_bits 63 (to_bits 64 z) ≡ z
unfolding of_bits to_bits
of_bits-to_bits_64 (pos n) h = ground arith
of_bits-to_bits_64 (negsuc n) h = ground arith

pub to_bits-lt_32 : (z : ℤ) → to_bits 32 z < 2 ^ 32
unfolding to_bits
to_bits-lt_32 (pos n) = omega arith
to_bits-lt_32 (negsuc n) = omega arith

pub to_bits-lt_64 : (z : ℤ) → to_bits 64 z < 2 ^ 64
unfolding to_bits
to_bits-lt_64 (pos n) = omega arith
to_bits-lt_64 (negsuc n) = omega arith

abbrev pub is_neg : ℤ → Bool
is_neg (pos n) = false
is_neg (negsuc n) = true

-- Comparison with a number.
abbrev pub lt_ℕ : ℤ → ℕ → Bool
lt_ℕ (pos n) k = ltb n k
lt_ℕ (negsuc n) k = true

abbrev pub eq_ℕ : ℤ → ℕ → Bool
eq_ℕ (pos n) k = n == k
eq_ℕ (negsuc n) k = false

abbrev pos_part : ℤ → ℕ
pos_part (pos n) = n
pos_part (negsuc n) = 0

abbrev neg_part : ℤ → ℕ
neg_part (pos n) = 0
neg_part (negsuc n) = suc n

-- a - b, as an integer.
abbrev sub_ℕ : ℕ → ℕ → ℤ
sub_ℕ a b = if leb b a then pos (a - b) else negsuc (b - a - 1)

infixl 65 ◌+ℤ◌
unfoldable pub ◌+ℤ◌ : ℤ → ℤ → ℤ
a +ℤ b = sub_ℕ (pos_part a + pos_part b) (neg_part a + neg_part b)
