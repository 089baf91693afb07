-- ===== src/Common/Lists.antt =====
-- Lists measured and indexed by native numbers, and predicates over all their elements.
use Prim.Native.Nat.{ℕ, zero, suc, ◌+◌, ◌≤◌}
use mathlib.Core.Path.{◌≡◌, refl, ap}
use mathlib.Core.List.{List, [], ◌∷◌, ◌++◌}
use mathlib.Core.Bool.{Bool}
use native.Mathlib.Omega.{arith}
use ntp_time_json_api.Common.Tests.{if◌then◌else◌}

module _ {ℓ} {A : Type ℓ} where
  abbrev pub length : List A → ℕ
  length [] = 0
  length (x ∷ xs) = suc (length xs)

  abbrev pub get_or : List A → ℕ → A → A
  get_or [] i d = d
  get_or (x ∷ xs) zero d = x
  get_or (x ∷ xs) (suc i) d = get_or xs i d

  abbrev pub take : ℕ → List A → List A
  take zero xs = []
  take (suc n) [] = []
  take (suc n) (x ∷ xs) = x ∷ take n xs

  abbrev pub drop : ℕ → List A → List A
  drop zero xs = xs
  drop (suc n) [] = []
  drop (suc n) (x ∷ xs) = drop n xs

  abbrev pub replicate : ℕ → A → List A
  replicate zero a = []
  replicate (suc n) a = a ∷ replicate n a

  -- `filter` by a Boolean test.
  abbrev pub keep : (A → Bool) → List A → List A
  keep p [] = []
  keep p (x ∷ xs) = if p x then x ∷ keep p xs else keep p xs

  abbrev pub All {κ} : (A → Type κ) → List A → Type κ
  All P [] = Unit {κ}
  All P (x ∷ xs) = P x × All P xs

  pub length-append : (xs ys : List A) → length (xs ++ ys) ≡ length xs + length ys
  length-append [] ys = omega arith
  length-append (x ∷ xs) ys = omega (arith, length-append xs ys)

  pub length-keep-le : (p : A → Bool) (xs : List A) → length (keep p xs) ≤ length xs
  length-keep-le p [] = omega arith
  length-keep-le p (x ∷ xs) = ground (arith, length-keep-le p xs)

  pub All-append {κ} : (P : A → Type κ) (xs ys : List A) → All P xs → All P ys → All P (xs ++ ys)
  All-append P [] ys h k = k
  All-append P (x ∷ xs) ys h k = (h.0, All-append P xs ys h.1 k)

module _ {ℓ} {A : Type ℓ} (d : A) where
  -- The `k` elements from index `i` on.
  abbrev pub cells : ℕ → ℕ → List A → List A
  cells zero i xs = []
  cells (suc k) i xs = get_or xs i d ∷ cells k (suc i) xs

  cells-cons : (k i : ℕ) (x : A) (xs : List A) → cells k (suc i) (x ∷ xs) ≡ cells k i xs
  cells-cons zero i x xs = refl
  cells-cons (suc k) i x xs = ap (◌∷◌ (get_or xs i d)) (cells-cons k (suc i) x xs)

  pub cells-append-drop : (k : ℕ) (xs : List A) → k ≤ length xs → xs ≡ cells k 0 xs ++ drop k xs
  cells-append-drop zero xs h = refl
  cells-append-drop (suc k) [] h = absurd (omega arith)
  cells-append-drop (suc k) (x ∷ xs) h =
      rw (cells-cons k 0 x xs) (ap (◌∷◌ x) (cells-append-drop k xs (omega arith)))

  pub take-cells : (k : ℕ) (xs : List A) → k ≤ length xs → take k xs ≡ cells k 0 xs
  take-cells zero xs h = refl
  take-cells (suc k) [] h = absurd (omega arith)
  take-cells (suc k) (x ∷ xs) h =
      rw (cells-cons k 0 x xs) (ap (◌∷◌ x) (take-cells k xs (omega arith)))

  pub All-get_or {κ} : (P : A → Type κ) (xs : List A) (i : ℕ) → P d → All P xs → P (get_or xs i d)
  All-get_or P [] i pd h = pd
  All-get_or P (x ∷ xs) zero pd h = h.0
  All-get_or P (x ∷ xs) (suc i) pd h = All-get_or P xs i pd h.1
