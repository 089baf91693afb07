-- ===== src/Selection/Consensus.antt =====
-- src/ntp/selection.rs: the weighted median, the servers that agree with it, and the best of them.
use ntp_time_json_api.Common.{
  ℕ, ◌+◌, Bool, false, ◌&&◌, ◌||◌, List, [], ◌∷◌, String, ltb, ◌==◌, if◌then◌else◌, max, map,
}
use text.Mathlib.Text
use ntp_time_json_api.Common.Int.{pos, leb_ℤ}
use ntp_time_json_api.Common.Float.{Float, ◌≤?◌, ◌<?◌, sum_float}
use ntp_time_json_api.Marzullo.{ScoredResult}

-- The filter by the set of indices, from index `i` on.
abbrev pub contains : ℕ → List ℕ → Bool
contains i [] = false
contains i (k ∷ ks) = k == i || contains i ks

abbrev pub pick {ℓ} : {A : Type ℓ} → List ℕ → ℕ → List A → List A
pick indices i [] = []
pick indices i (x ∷ xs) =
    let rest = pick indices (i + 1) xs in if contains i indices then x ∷ rest else rest

-- `group_counts`: the entry of a group, one more.
abbrev pub bump : String → List (String × ℕ) → List (String × ℕ)
bump g [] = (g, 1) ∷ []
bump g ((k, n) ∷ m) = if text.Mathlib.Text.◌==◌ k g then (k, n + 1) ∷ m else (k, n) ∷ bump g m

abbrev pub group_counts : List String → List (String × ℕ) → List (String × ℕ)
group_counts [] m = m
group_counts (g ∷ gs) m = group_counts gs (bump g m)

abbrev pub max_count : List (String × ℕ) → ℕ
max_count [] = 0
max_count ((g, n) ∷ m) = max n (max_count m)

module _ {F : Type 0} ⦃fl : Float F⦄ where
  -- `sort_by_key` on the offset, which is stable.
  unfoldable pub insert_offset : ScoredResult F → List (ScoredResult F) → List (ScoredResult F)
  insert_offset c [] = c ∷ []
  insert_offset c (x ∷ xs) =
      if leb_ℤ c.result.offset_ms x.result.offset_ms then c ∷ x ∷ xs else x ∷ insert_offset c xs

  unfoldable pub sort_by_offset : List (ScoredResult F) → List (ScoredResult F)
  unfolding insert_offset
  sort_by_offset [] = []
  sort_by_offset (c ∷ cs) = insert_offset c (sort_by_offset cs)

  abbrev pub offset_float : ScoredResult F → F
  offset_float c = fl.of_int c.result.offset_ms

  abbrev pub last_offset : List (ScoredResult F) → F → F
  last_offset [] d = d
  last_offset (c ∷ cs) d = last_offset cs (offset_float c)

  -- The loop that stops at the first candidate with half of the weight behind it.
  unfoldable pub median_from : F → F → F → List (ScoredResult F) → F
  median_from half cumulative d [] = d
  median_from half cumulative d (c ∷ cs) =
      let reached = fl.add cumulative c.weight in
      if half ≤? reached then offset_float c else median_from half reached d cs

  unfoldable pub weighted_median : List (ScoredResult F) → F
  unfolding median_from
  weighted_median active =
      let half = fl.div (sum_float (map (λ c. c.weight) active)) (fl.of_int (pos 2)) in
      median_from half (fl.of_int (pos 0)) (last_offset active (fl.of_int (pos 0))) active

  abbrev pub agrees : F → F → ScoredResult F → Bool
  agrees skew wm_offset c = fl.abs (fl.sub (offset_float c) wm_offset) ≤? skew

  -- The lower root distance comes first, and for equal ones the shorter round trip.
  abbrev pub is_better : ScoredResult F → ScoredResult F → Bool
  is_better a b =
      (a.lambda_ms <? b.lambda_ms)
      || ((a.lambda_ms ≤? b.lambda_ms) && ltb a.result.rtt b.result.rtt)

  -- `min_by`: the first of the best.
  unfoldable pub best_of : ScoredResult F → List (ScoredResult F) → ScoredResult F
  best_of b [] = b
  best_of b (c ∷ cs) = if is_better c b then best_of c cs else best_of b cs
