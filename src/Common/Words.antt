-- ===== src/Common/Words.antt =====
-- Machine words as native numbers, `i8`, and big-endian bytes.
use Prim.Native.Nat.{ℕ, zero, suc, ◌+◌, ◌-◌, ◌*◌, ◌/◌, ◌%◌, ◌^◌, ◌<◌, min}
use mathlib.Core.Path.{◌≡◌, refl, ap, ap₂, ◌∙◌}
use mathlib.Core.List.{List, [], ◌∷◌}
use native.Mathlib.Nat.{pow-suc, one-le-pow, mul-add-div_right, div-eq_of_lt}
use native.Mathlib.Omega.{arith}
use ntp_time_json_api.Common.Tests.{ltb, if◌then◌else◌}
use ntp_time_json_api.Common.Lists.{length, All}
use ntp_time_json_api.Common.Int.{ℤ, pos, negsuc}

abbrev pub u8 : ℕ → ℕ
u8 n = n % 2 ^ 8

abbrev pub u32 : ℕ → ℕ
u32 n = n % 2 ^ 32

abbrev pub u64 : ℕ → ℕ
u64 n = n % 2 ^ 64

abbrev pub u32_max : ℕ
u32_max = 2 ^ 32 - 1

abbrev pub u64_max : ℕ
u64_max = 2 ^ 64 - 1

-- Saturating arithmetic on `u64`; `a - b` on ℕ is `saturating_sub`.
abbrev pub saturating_add : ℕ → ℕ → ℕ
saturating_add a b = min (a + b) u64_max

abbrev pub saturating_mul : ℕ → ℕ → ℕ
saturating_mul a b = min (a * b) u64_max

-- `b as i8` of a byte, and back.
abbrev pub as_i8 : ℕ → ℤ
as_i8 b = if ltb b 128 then pos b else negsuc (255 - b)

abbrev pub i8_as_u8 : ℤ → ℕ
i8_as_u8 (pos n) = n % 256
i8_as_u8 (negsuc n) = 255 - n % 256

abbrev pub InI8 : ℤ → Type 0
InI8 (pos n) = n < 128
InI8 (negsuc n) = n < 128

pub as_i8-i8_as_u8 : (z : ℤ) → InI8 z → as_i8 (i8_as_u8 z) ≡ z
as_i8-i8_as_u8 (pos n) h = ground arith
as_i8-i8_as_u8 (negsuc n) h = ground arith

pub i8_as_u8-as_i8 : (b : ℕ) → b < 256 → i8_as_u8 (as_i8 b) ≡ b
i8_as_u8-as_i8 b h = ground arith

pub as_i8-InI8 : (b : ℕ) → b < 256 → InI8 (as_i8 b)
as_i8-InI8 b h = ground arith

abbrev pub IsByte : ℕ → Type 0
IsByte b = b < 256

-- `to_be_bytes` of a word of `k` bytes, and `from_be_bytes`.
abbrev pub to_be_bytes : ℕ → ℕ → List ℕ
to_be_bytes zero n = []
to_be_bytes (suc k) n = n / 256 ^ k % 256 ∷ to_be_bytes k n

abbrev pub from_be_bytes : List ℕ → ℕ
from_be_bytes [] = 0
from_be_bytes (b ∷ bs) = b * 256 ^ length bs + from_be_bytes bs

pub length-to_be_bytes : (k n : ℕ) → length (to_be_bytes k n) ≡ k
length-to_be_bytes zero n = refl
length-to_be_bytes (suc k) n = ap suc (length-to_be_bytes k n)

pub to_be_bytes-IsByte : (k n : ℕ) → All IsByte (to_be_bytes k n)
to_be_bytes-IsByte zero n = tt
to_be_bytes-IsByte (suc k) n = (omega arith, to_be_bytes-IsByte k n)

pub from_be_bytes-lt : (bs : List ℕ) → All IsByte bs → from_be_bytes bs < 256 ^ length bs
from_be_bytes-lt [] h = omega arith
from_be_bytes-lt (b ∷ bs) h = grind (arith, from_be_bytes-lt bs h.1, pow-suc 256 (length bs))

pub from_be_bytes-to_be_bytes_32 : (n : ℕ) → n < 2 ^ 32 → from_be_bytes (to_be_bytes 4 n) ≡ n
from_be_bytes-to_be_bytes_32 n h = omega arith

pub from_be_bytes-to_be_bytes_64 : (n : ℕ) → n < 2 ^ 64 → from_be_bytes (to_be_bytes 8 n) ≡ n
from_be_bytes-to_be_bytes_64 n h = omega arith

-- Bytes below a power of 256 do not see what is added above it.
to_be_bytes-add_mul : (k c x : ℕ) → to_be_bytes k (c * 256 ^ k + x) ≡ to_be_bytes k x
to_be_bytes-add_mul zero c x = refl
to_be_bytes-add_mul (suc k) c x =
    let split : c * 256 ^ suc k + x ≡ (c * 256) * 256 ^ k + x =
      omega (arith, ap (λ (t : ℕ). c * t) (pow-suc 256 k)) in
    let top : ((c * 256) * 256 ^ k + x) / 256 ^ k % 256 ≡ x / 256 ^ k % 256 =
      omega (arith, mul-add-div_right {m = 256 ^ k} (one-le-pow k 256 (omega arith)) (c * 256) x) in
    rw split (ap₂ ◌∷◌ top (to_be_bytes-add_mul k (c * 256) x))

pub to_be_bytes-from_be_bytes :
    (bs : List ℕ) → All IsByte bs → to_be_bytes (length bs) (from_be_bytes bs) ≡ bs
to_be_bytes-from_be_bytes [] h = refl
to_be_bytes-from_be_bytes (b ∷ bs) h =
    let rest = from_be_bytes bs in
    let top : (b * 256 ^ length bs + rest) / 256 ^ length bs % 256 ≡ b = omega (
      arith,
      mul-add-div_right {m = 256 ^ length bs} (one-le-pow (length bs) 256 (omega arith)) b rest,
      div-eq_of_lt (from_be_bytes-lt bs h.1),
      h.0,
    ) in
    ap₂ ◌∷◌ top (to_be_bytes-add_mul (length bs) b rest ∙ to_be_bytes-from_be_bytes bs h.1)
