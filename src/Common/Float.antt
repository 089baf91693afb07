-- ===== src/Common/Float.antt =====
-- `f64` as an interface. `F` has the values other than NaN, on which the order is total; the
-- operations are on those, which is all that the program computes with integers gives. A setting may
-- be NaN, since `"NaN"` parses: it is an `F64 F`. No law of rounding is assumed. `int_float` shows
-- that the laws can be met.
use Prim.Native.Nat.{ℕ, zero, suc, ◌+◌, ◌*◌, ◌/◌, ◌^◌}
use mathlib.Core.Path.{◌≡◌}
use mathlib.Core.Logic.{◌⊎◌}
use mathlib.Core.Bool.{Bool, true, false, not}
use mathlib.Core.List.{List, [], ◌∷◌}
use native.Mathlib.Omega.{arith}
use ntp_time_json_api.Common.Tests.{leb, if◌then◌else◌}
use ntp_time_json_api.Common.Int.{
  ℤ, pos, negsuc, pos_part, neg_part, sub_ℕ, leb_ℤ, ◌+ℤ◌, ◌-ℤ◌, abs_ℤ,
}

pub record Float (F : Type 0) : Type 0 where
  -- `x as f64` of an integer, and the decimal literal m × 10^e.
  pub of_int : ℤ → F
  pub literal : ℕ → ℤ → F
  pub add : F → F → F
  pub sub : F → F → F
  pub mul : F → F → F
  pub div : F → F → F
  pub sqrt : F → F
  pub ceil : F → F
  pub abs : F → F
  -- `2f64.powi(n)`.
  pub exp2 : ℤ → F
  -- `x as u64`, which saturates.
  pub to_u64 : F → ℕ
  pub at_most : F → F → Bool
  pub at_most_total : (a b : F) → (at_most a b ≡ true) ⊎ (at_most b a ≡ true)
  pub at_most_trans : (a b c : F) → at_most a b ≡ true → at_most b c ≡ true → at_most a c ≡ true

-- Any value, NaN included.
pub data F64 (F : Type 0) : Type 0 where
  nan : F64 F
  number : F → F64 F

-- The condition holds, or there is no number that it could be asked of.
abbrev pub NanOr : {F : Type 0} → (F → Type 0) → F64 F → Type 0
NanOr P nan = Unit {0}
NanOr P (number x) = P x

module _ {F : Type 0} ⦃fl : Float F⦄ where
  infix 50 ◌≤?◌ ◌<?◌ ◌≤f64◌ ◌<f64◌
  abbrev pub ◌≤?◌ : F → F → Bool
  a ≤? b = fl.at_most a b

  -- Without NaN, `a < b` is the negation of `b <= a`.
  abbrev pub ◌<?◌ : F → F → Bool
  a <? b = not (fl.at_most b a)

  -- The comparisons of all values: with NaN each is false.
  abbrev pub ◌≤f64◌ : F64 F → F64 F → Bool
  nan ≤f64 b = false
  number x ≤f64 nan = false
  number x ≤f64 number y = x ≤? y

  abbrev pub ◌<f64◌ : F64 F → F64 F → Bool
  nan <f64 b = false
  number x <f64 nan = false
  number x <f64 number y = x <? y

  -- The product by a number.
  abbrev pub times : F → F64 F → F64 F
  times x nan = nan
  times x (number y) = number (fl.mul x y)

  abbrev pub max_float : F → F → F
  max_float a b = if fl.at_most a b then b else a

  abbrev pub min_float : F → F → F
  min_float a b = if fl.at_most a b then a else b

  -- `iter().sum()`, from the left.
  abbrev pub sum_onto : F → List F → F
  sum_onto total [] = total
  sum_onto total (x ∷ xs) = sum_onto (fl.add total x) xs

  abbrev pub sum_float : List F → F
  sum_float xs = sum_onto (fl.of_int (pos 0)) xs

  pub ≤?_refl : (a : F) → (a ≤? a) ≡ true
  ≤?_refl a = ground (arith, fl.at_most_total a a)

-- Integers, each quotient rounded towards zero and each root down.
abbrev int_sqrt : ℕ → ℕ → ℕ
int_sqrt zero n = 0
int_sqrt (suc k) n = let lower = int_sqrt k n in if leb (suc k * suc k) n then suc k else lower

abbrev int_mul : ℤ → ℤ → ℤ
int_mul a b =
    sub_ℕ (pos_part a * pos_part b + neg_part a * neg_part b)
      (pos_part a * neg_part b + neg_part a * pos_part b)

abbrev int_div : ℤ → ℤ → ℤ
int_div (pos a) (pos b) = pos (a / b)
int_div (pos a) (negsuc b) = sub_ℕ 0 (a / suc b)
int_div (negsuc a) (pos b) = sub_ℕ 0 (suc a / b)
int_div (negsuc a) (negsuc b) = pos (suc a / suc b)

abbrev int_literal : ℕ → ℤ → ℤ
int_literal m (pos e) = pos (m * 10 ^ e)
int_literal m (negsuc e) = pos (m / 10 ^ suc e)

abbrev int_exp2 : ℤ → ℤ
int_exp2 (pos n) = pos (2 ^ n)
int_exp2 (negsuc n) = pos 0

pub leb_ℤ_total : (a b : ℤ) → (leb_ℤ a b ≡ true) ⊎ (leb_ℤ b a ≡ true)
leb_ℤ_total a b = ground arith

pub leb_ℤ_trans : (a b c : ℤ) → leb_ℤ a b ≡ true → leb_ℤ b c ≡ true → leb_ℤ a c ≡ true
leb_ℤ_trans a b c h k = ground arith

instance abbrev pub int_float : Float ℤ
int_float = record {
  of_int = λ z. z;
  literal = int_literal;
  add = ◌+ℤ◌;
  sub = ◌-ℤ◌;
  mul = int_mul;
  div = int_div;
  sqrt = λ z. pos (int_sqrt (pos_part z) (pos_part z));
  ceil = λ z. z;
  abs = λ z. pos (abs_ℤ z);
  exp2 = int_exp2;
  to_u64 = pos_part;
  at_most = leb_ℤ;
  at_most_total = leb_ℤ_total;
  at_most_trans = leb_ℤ_trans;
}
