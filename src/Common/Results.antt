-- ===== src/Common/Results.antt =====
-- `Result<T, E>`, and `?` as the bind of a do block.
use mathlib.Core.Path.{◌≡◌, refl}
use mathlib.Core.Logic.{◌⊎◌, inl, inr}
use native.Mathlib.Omega.{arith}

pub data Result {ℓ κ} (Value : Type ℓ) (Error : Type κ) : Type (ℓ ⊔ κ) where
  err : Error → Result Value Error
  ok : Value → Result Value Error

module _ {ℓ μ} {B : Type ℓ} {E : Type μ} where
  -- `m?` with its value, and `m?;` for what comes after a check.
  infixl 5 ◌>>◌ ◌>>=◌
  abbrev pub ◌>>=◌ {κ} : {A : Type κ} → Result A E → (A → Result B E) → Result B E
  m >>= next = elim m [ err failure ↦ err failure | ok value ↦ next value ]

  abbrev pub ◌>>◌ : Result (Unit {0}) E → Result B E → Result B E
  check >> next = check >>= (λ passed. next)

-- A chain succeeds only where its first link does, and its proof goes on with that value.
pub >>=-elim {ℓ κ μ ν} :
    {A : Type ℓ} {B : Type κ} {E : Type μ} {P : Type ν} (m : Result A E) {f : A → Result B E}
    {b : B}
    → (m >>= f) ≡ ok b
    → ((a : A) → m ≡ ok a → f a ≡ ok b → P)
    → P
>>=-elim (ok a) h k = k a refl h
>>=-elim (err e) h k = absurd (ground arith)

pub Result-cases {ℓ κ} :
    {A : Type ℓ} {E : Type κ} (r : Result A E) → ((e : E) × (r ≡ err e)) ⊎ ((a : A) × (r ≡ ok a))
Result-cases (err e) = inl (e, refl)
Result-cases (ok a) = inr (a, refl)
