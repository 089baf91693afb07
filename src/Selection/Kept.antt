-- ===== src/Selection/Kept.antt =====
-- src/ntp/selection.rs: filters, sorting and the search for the best keep what holds of all.
use ntp_time_json_api.Common.{
  ℕ, ◌+◌, ◌≡◌, Bool, true, List, [], ◌∷◌, if_intro, if_cases, keep, All, arith,
}
use ntp_time_json_api.Common.Int.{leb_ℤ}
use ntp_time_json_api.Common.Float.{Float, ◌≤?◌, ≤?_refl}
use ntp_time_json_api.Marzullo.{ScoredResult}
use ntp_time_json_api.Selection.Consensus.{
  contains, pick, insert_offset, sort_by_offset, is_better, best_of,
}

-- What holds of all elements holds of those that are kept.
pub All-keep {ℓ κ} :
    {A : Type ℓ} (P : A → Type κ) (p : A → Bool) (xs : List A) → All P xs → All P (keep p xs)
All-keep P p [] h = h
All-keep P p (x ∷ xs) h = if_intro (All P) (p x) (h.0, All-keep P p xs h.1) (All-keep P p xs h.1)

pub keep-All {ℓ} : {A : Type ℓ} (p : A → Bool) (xs : List A) → All (λ x. p x ≡ true) (keep p xs)
keep-All p [] = tt
keep-All p (x ∷ xs) =
    if_cases (All (λ y. p y ≡ true)) (p x) (λ h. (h, keep-All p xs)) (λ _. keep-All p xs)

pub All-map {ℓ κ μ} :
    {A : Type ℓ} {P : A → Type κ} {Q : A → Type μ}
    → ((x : A) → P x → Q x)
    → (xs : List A) → All P xs
    → All Q xs
All-map f [] h = tt
All-map f (x ∷ xs) h = (f x h.0, All-map f xs h.1)

pub All-pick {ℓ κ} :
    {A : Type ℓ} (P : A → Type κ) (indices : List ℕ) (i : ℕ) (xs : List A)
    → All P xs
    → All P (pick indices i xs)
All-pick P indices i [] h = h
All-pick P indices i (x ∷ xs) h =
    let rest = All-pick P indices (i + 1) xs h.1 in
    if_intro (All P) (contains i indices) (h.0, rest) rest

module _ {F : Type 0} ⦃fl : Float F⦄ (P : ScoredResult F → Type 0) where
  All-insert_offset :
      (c : ScoredResult F) (cs : List (ScoredResult F))
      → P c
      → All P cs
      → All P (insert_offset c cs)
  unfolding insert_offset
  All-insert_offset c [] h k = (h, tt)
  All-insert_offset c (x ∷ xs) h k =
      if_intro (All P) (leb_ℤ c.result.offset_ms x.result.offset_ms) (h, k)
        (k.0, All-insert_offset c xs h k.1)

  pub All-sort_by_offset : (cs : List (ScoredResult F)) → All P cs → All P (sort_by_offset cs)
  unfolding sort_by_offset
  All-sort_by_offset [] h = tt
  All-sort_by_offset (c ∷ cs) h =
      All-insert_offset c (sort_by_offset cs) h.0 (All-sort_by_offset cs h.1)

  pub best_of-all :
      (b : ScoredResult F) (cs : List (ScoredResult F)) → P b → All P cs → P (best_of b cs)
  unfolding best_of
  best_of-all b [] h k = h
  best_of-all b (c ∷ cs) h k =
      if_intro P (is_better c b) (best_of-all c cs k.0 k.1) (best_of-all b cs h k.1)

module _ {F : Type 0} ⦃fl : Float F⦄ where
  pub best_of-le_first :
      (b : ScoredResult F) (cs : List (ScoredResult F))
      → ((best_of b cs).lambda_ms ≤? b.lambda_ms) ≡ true
  unfolding best_of
  best_of-le_first b [] = ≤?_refl b.lambda_ms
  best_of-le_first b (c ∷ cs) = ground (
    arith,
    best_of-le_first c cs,
    best_of-le_first b cs,
    fl.at_most_total c.lambda_ms b.lambda_ms,
    fl.at_most_trans (best_of c cs).lambda_ms c.lambda_ms b.lambda_ms,
  )

  pub best_of-le :
      (b : ScoredResult F) (cs : List (ScoredResult F))
      → All (λ c. ((best_of b cs).lambda_ms ≤? c.lambda_ms) ≡ true) cs
  unfolding best_of
  best_of-le b [] = tt
  best_of-le b (c ∷ cs) =
      if_cases (λ (d : ScoredResult F). All (λ x. (d.lambda_ms ≤? x.lambda_ms) ≡ true) (c ∷ cs))
        (is_better c b) (λ _. (best_of-le_first c cs, best_of-le c cs))
        (λ worse. (
          fl.at_most_trans (best_of b cs).lambda_ms b.lambda_ms c.lambda_ms (best_of-le_first b cs)
              (ground (arith, worse)),
          best_of-le b cs,
        ))

-- Two properties of all elements.
pub All-both :
    {A : Type 0} (P Q : A → Type 0) (xs : List A) → All P xs → All Q xs → All (λ x. P x × Q x) xs
All-both P Q [] p q = tt
All-both P Q (x ∷ xs) p q = ((p.0, q.0), All-both P Q xs p.1 q.1)
