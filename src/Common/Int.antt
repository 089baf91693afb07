-- ===== src/Common/Int.antt =====
-- Signed integers over the native numbers, and `i64`: wrap-around is written out by `wrap_i64`.
use Prim.Native.Nat.{ℕ, suc, ◌+◌, ◌-◌, ◌*◌, ◌/◌, ◌%◌, ◌^◌, ◌≤◌, ◌<◌, min}
use mathlib.Core.Path.{◌≡◌}
use mathlib.Core.Logic.{◌⊎◌}
use mathlib.Core.Bool.{Bool}
use native.Mathlib.Omega.{arith}
use ntp_time_json_api.Common.Tests.{ltb, leb, if◌then◌else◌}

-- `negsuc n` is -(n + 1).
pub data ℤ : Type 0 where
  pos : ℕ → ℤ
  negsuc : ℕ → ℤ

abbrev pub pos_part : ℤ → ℕ
pos_part (pos n) = n
pos_part (negsuc n) = 0

abbrev pub neg_part : ℤ → ℕ
neg_part (pos n) = 0
neg_part (negsuc n) = suc n

-- a - b, as an integer.
abbrev pub sub_ℕ : ℕ → ℕ → ℤ
sub_ℕ a b = if leb b a then pos (a - b) else negsuc (b - a - 1)

infixl 65 ◌+ℤ◌ ◌-ℤ◌
infix 50 ◌≤ℤ◌ ◌<ℤ◌
unfoldable pub ◌+ℤ◌ : ℤ → ℤ → ℤ
a +ℤ b = sub_ℕ (pos_part a + pos_part b) (neg_part a + neg_part b)

unfoldable pub ◌-ℤ◌ : ℤ → ℤ → ℤ
a -ℤ b = sub_ℕ (pos_part a + neg_part b) (neg_part a + pos_part b)

abbrev pub ◌≤ℤ◌ : ℤ → ℤ → Type 0
a ≤ℤ b = pos_part a + neg_part b ≤ pos_part b + neg_part a

abbrev pub ◌<ℤ◌ : ℤ → ℤ → Type 0
a <ℤ b = pos_part a + neg_part b < pos_part b + neg_part a

abbrev pub leb_ℤ : ℤ → ℤ → Bool
leb_ℤ a b = leb (pos_part a + neg_part b) (pos_part b + neg_part a)

abbrev pub ltb_ℤ : ℤ → ℤ → Bool
ltb_ℤ a b = ltb (pos_part a + neg_part b) (pos_part b + neg_part a)

-- Rust's `/` on signed integers rounds towards zero. The divisor is a positive literal.
abbrev pub neg : ℕ → ℤ
neg n = sub_ℕ 0 n

unfoldable pub div_ℤ : ℤ → ℕ → ℤ
div_ℤ (pos n) d = pos (n / d)
div_ℤ (negsuc n) d = neg (suc n / d)

-- |a|, below the range of `i64`.
abbrev pub abs_ℤ : ℤ → ℕ
abs_ℤ a = pos_part a + neg_part a

-- The value of type `i64` that an exact result wraps to.
unfoldable pub wrap_i64 : ℤ → ℤ
wrap_i64 (pos n) = let r = n % 2 ^ 64 in if ltb r (2 ^ 63) then pos r else negsuc (2 ^ 64 - 1 - r)
wrap_i64 (negsuc n) =
    let r = n % 2 ^ 64 in if ltb r (2 ^ 63) then negsuc r else pos (2 ^ 64 - 1 - r)

abbrev pub InI64 : ℤ → Type 0
InI64 a = (pos_part a < 2 ^ 63) × (neg_part a ≤ 2 ^ 63)

pub wrap_i64-InI64 : (a : ℤ) → InI64 (wrap_i64 a)
unfolding wrap_i64
wrap_i64-InI64 (pos n) = ground arith
wrap_i64-InI64 (negsuc n) = ground arith

pub wrap_i64_of_InI64 : (a : ℤ) → InI64 a → wrap_i64 a ≡ a
unfolding wrap_i64
wrap_i64_of_InI64 (pos n) h = ground arith
wrap_i64_of_InI64 (negsuc n) h = ground arith

pub +ℤ_parts :
    (a b : ℤ)
    → pos_part (a +ℤ b) + neg_part a + neg_part b ≡ neg_part (a +ℤ b) + pos_part a + pos_part b
unfolding ◌+ℤ◌
+ℤ_parts a b = ground arith

pub -ℤ_parts :
    (a b : ℤ)
    → pos_part (a -ℤ b) + neg_part a + pos_part b ≡ neg_part (a -ℤ b) + pos_part a + neg_part b
unfolding ◌-ℤ◌
-ℤ_parts a b = ground arith

-- At most one part of an integer is not zero.
pub pos_or_neg : (a : ℤ) → (neg_part a ≡ 0) ⊎ (pos_part a ≡ 0)
pos_or_neg a = ground arith

pub eq_of_parts : (a b : ℤ) → pos_part a + neg_part b ≡ pos_part b + neg_part a → a ≡ b
eq_of_parts a b h = ground arith

-- `i64` addition and subtraction, as a release build computes them.
infixl 65 ◌+i64◌ ◌-i64◌
unfoldable pub ◌+i64◌ : ℤ → ℤ → ℤ
unfolding wrap_i64 ◌+ℤ◌
a +i64 b = wrap_i64 (a +ℤ b)

unfoldable pub ◌-i64◌ : ℤ → ℤ → ℤ
unfolding wrap_i64 ◌-ℤ◌
a -i64 b = wrap_i64 (a -ℤ b)

-- `i64::abs` of a release build, which leaves the least value as it is.
unfoldable pub abs_i64 : ℤ → ℤ
unfolding wrap_i64
abs_i64 a = wrap_i64 (pos (abs_ℤ a))

-- `i64::saturating_mul` by a positive literal, and `i64::saturating_add`.
clamp_i64 : ℤ → ℤ
clamp_i64 (pos n) = pos (min n (2 ^ 63 - 1))
clamp_i64 (negsuc n) = negsuc (min n (2 ^ 63 - 1))

unfoldable pub saturating_mul_i64 : ℤ → ℕ → ℤ
unfolding clamp_i64
saturating_mul_i64 a k = clamp_i64 (sub_ℕ (pos_part a * k) (neg_part a * k))

unfoldable pub saturating_add_i64 : ℤ → ℤ → ℤ
unfolding clamp_i64 ◌+ℤ◌
saturating_add_i64 a b = clamp_i64 (a +ℤ b)

unfoldable pub saturating_sub_i64 : ℤ → ℤ → ℤ
unfolding clamp_i64 ◌-ℤ◌
saturating_sub_i64 a b = clamp_i64 (a -ℤ b)
