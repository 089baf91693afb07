-- ===== src/Common/Bits.antt =====
-- `|` of disjoint bit fields and `&` with a mask of low ones, as arithmetic, at every width.
use Prim.Native.Nat.{
  ℕ, zero, suc, ◌+◌, ◌-◌, ◌*◌, ◌/◌, ◌%◌, ◌^◌, ◌≤◌, ◌<◌, min, max, digits, bit_and, bit_or,
  bit_and-bitwise, bit_or-bitwise,
}
use mathlib.Core.Path.{◌≡◌, refl, ap, sym, ◌∙◌}
use native.Mathlib.Nat.{pow-suc, one-le-pow}
use native.Mathlib.Omega.{arith}

module _ (z : ℕ → ℕ) (f : ℕ → ℕ → ℕ) where
  digits_at_zero : (n b : ℕ) → digits z f n zero b ≡ z b
  digits_at_zero zero b = refl
  digits_at_zero (suc n) b = refl

  -- Any fuel from `a` on gives the same digits.
  digits_enough : (n m a b : ℕ) → a ≤ n → a ≤ m → digits z f n a b ≡ digits z f m a b
  digits_enough n m zero b _ _ = digits_at_zero n b ∙ sym (digits_at_zero m b)
  digits_enough zero m (suc a) b few more = absurd (omega arith)
  digits_enough (suc n) zero (suc a) b more few = absurd (omega arith)
  digits_enough (suc n) (suc m) (suc a) b few many =
      rw (digits_enough n m (suc a / 2) (b / 2) (omega arith) (omega arith))

or_low : (a b : ℕ) → bit_or a b ≡ bit_or (a / 2) (b / 2) * 2 + max (a % 2) (b % 2)
or_low zero b = simp bit_or-bitwise (omega arith)
or_low (suc a) b = omega (
  arith,
  digits_enough (λ y. y) max (suc a / 2) a (suc a / 2) (b / 2) (omega arith) (omega arith),
  bit_or-bitwise (suc a / 2) (b / 2),
  bit_or-bitwise (suc a) b,
)

and_low : (a b : ℕ) → bit_and a b ≡ bit_and (a / 2) (b / 2) * 2 + min (a % 2) (b % 2)
and_low zero b = simp bit_and-bitwise (omega arith)
and_low (suc a) b = omega (
  arith,
  digits_enough (λ y. 0) min (suc a / 2) a (suc a / 2) (b / 2) (omega arith) (omega arith),
  bit_and-bitwise (suc a / 2) (b / 2),
  bit_and-bitwise (suc a) b,
)

zero_right : (n a : ℕ) → a ≤ n → (bit_or a 0 ≡ a) × (bit_and a 0 ≡ 0)
zero_right n zero h = (refl, refl)
zero_right zero (suc a) h = absurd (omega arith)
zero_right (suc n) (suc a) h =
    let (or_half, and_half) = zero_right n (suc a / 2) (omega arith) in
    (omega (arith, or_half, or_low (suc a) 0), omega (arith, and_half, and_low (suc a) 0))

times_pow-suc : (q k : ℕ) → q * 2 ^ suc k ≡ 2 * (q * 2 ^ k)
times_pow-suc q k = omega (arith, ap (λ (t : ℕ). q * t) (pow-suc 2 k))

-- `(q << k) | r` is a sum when `r` has at most `k` bits.
pub bit_or_disjoint : (k q r : ℕ) → r < 2 ^ k → bit_or (q * 2 ^ k) r ≡ q * 2 ^ k + r
bit_or_disjoint zero q r h = ground (arith, (zero_right q q (omega arith)).0)
bit_or_disjoint (suc k) q r h =
    ground (
      arith,
      or_low (q * 2 ^ suc k) r,
      times_pow-suc q k,
      bit_or_disjoint k q (r / 2) (omega arith),
    )

mask_fields : (k q r : ℕ) → r < 2 ^ k → bit_and (q * 2 ^ k + r) (2 ^ k - 1) ≡ r
mask_fields zero q r h = ground (arith, (zero_right (q * 1 + r) (q * 1 + r) (omega arith)).1)
mask_fields (suc k) q r h = ground (
  arith,
  and_low (q * 2 ^ suc k + r) (2 ^ suc k - 1),
  times_pow-suc q k,
  pow-suc 2 k,
  mask_fields k q (r / 2) (omega arith),
)

-- `a & (2^k - 1)` is the remainder by `2 ^ k`.
pub bit_and_mask : (k a : ℕ) → bit_and a (2 ^ k - 1) ≡ a % 2 ^ k
bit_and_mask k a = ground (arith, one-le-pow k 2, mask_fields k (a / 2 ^ k) (a % 2 ^ k))
