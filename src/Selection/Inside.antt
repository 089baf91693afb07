-- ===== src/Selection/Inside.antt =====
-- src/ntp/selection.rs: how the agreers lie to the region of the intersection.
use ntp_time_json_api.Common.{
  ℕ, ◌+◌, ◌^◌, ◌<◌, ◌≡◌, refl, sym, ap, subst, ◌∙◌, ◌⊎◌, inl, inr, Bool, true, false, ◌==◌, Option,
  none, some, List, [], ◌∷◌, String, ltb, if◌then◌else◌, if_intro, if_cases, length, map, keep, All,
  arith,
}
use ntp_time_json_api.Common.Float.{Float}
use ntp_time_json_api.Samples.{Instant, NtpResult}
use ntp_time_json_api.Marzullo.{
  ScoredResult, MarzulloState, MarzulloResult, marzullo_filter, truechimers, spans,
}
use ntp_time_json_api.Marzullo.Quorum.{Answer, accepted, refused, marzullo_filter-Answer}
use ntp_time_json_api.Selection.{SelectionConfig, RejectedSource, JitterMap, gather}
use ntp_time_json_api.Selection.Consensus.{contains, pick, sort_by_offset, weighted_median, agrees}
use ntp_time_json_api.Selection.Select.{
  SelectionOutput, SelectionDiagnostics, IntersectionDiagnostics, IntersectionState, with_region,
  base_diagnostics, accept, agree, after_filter, choose, select,
}
use mathlib.Core.List.{Memᴰ}
use ntp_time_json_api.Selection.Gates.{IsGated, gather-All, self_members}
use ntp_time_json_api.Selection.Kept.{All-both, All-keep, keep-All, All-sort_by_offset}

-- The indices from `i` on leave out what lies before.
module _ {F : Type 0} ⦃fl : Float F⦄ (lo hi : F) where
  contains-truechimers :
      (j i : ℕ) (cs : List (ScoredResult F)) → j < i → contains j (truechimers lo hi i cs) ≡ false
  unfolding truechimers
  contains-truechimers j i [] h = refl
  contains-truechimers j i (c ∷ cs) h =
      ground (arith, contains-truechimers j (i + 1) cs (omega arith))

  pick-cons :
      {A : Type 0} (j : ℕ) (ks : List ℕ) (i : ℕ) (xs : List A)
      → j < i
      → pick (j ∷ ks) i xs ≡ pick ks i xs
  pick-cons j ks i [] h = refl
  pick-cons j ks i (x ∷ xs) h = ground (arith, pick-cons j ks (i + 1) xs (omega arith))

  pick_head :
      {A : Type 0} (b : Bool) (i : ℕ) (rest : List ℕ) (x : A) (xs : List A) {kept : List A}
      → contains i rest ≡ false
      → pick rest (i + 1) xs ≡ kept
      → pick (if b then i ∷ rest else rest) i (x ∷ xs) ≡ (if b then x ∷ kept else kept)
  pick_head true i rest x xs absent later =
      let own : (i == i) ≡ true = ground arith in
      rw own (ap (◌∷◌ x) (pick-cons i rest (i + 1) xs (omega arith) ∙ later))
  pick_head false i rest x xs absent later = rw absent later

  -- The filter by the indices of the truechimers keeps those that span the region.
  pick-truechimers :
      (i : ℕ) (cs : List (ScoredResult F))
      → pick (truechimers lo hi i cs) i cs ≡ keep (spans lo hi) cs
  unfolding truechimers
  pick-truechimers i [] = refl
  pick-truechimers i (c ∷ cs) =
      let rest = truechimers lo hi (i + 1) cs in
      pick_head (spans lo hi c) i rest c cs (contains-truechimers i (i + 1) cs (omega arith))
        (pick-truechimers (i + 1) cs)

module _ {F : Type 0} ⦃fl : Float F⦄ (P : ScoredResult F → Type 0)
    (inter : IntersectionDiagnostics F) where
  -- The agreers of an output that hands on these diagnostics of the intersection.
  abbrev pub Agreed : SelectionOutput F → Type 0
  Agreed out =
      (agreers : List (ScoredResult F)) × (out.agreers ≡ map (λ a. a.result) agreers)
      × All P agreers
      × (out.diagnostics.intersection ≡ inter)

  -- An output that selects nothing, or whose agreers all have the property.
  abbrev pub Within : Option (SelectionOutput F) → Type 0
  Within none = Unit {0}
  Within (some out) = (out.selected ≡ none) ⊎ Agreed out

  accept-Within :
      (group : String → String) (config : SelectionConfig F) (base : SelectionDiagnostics F)
      (wm_offset : F) (cs : List (ScoredResult F))
      → All P cs
      → base.intersection ≡ inter
      → Within (accept group config base wm_offset cs)
  unfolding accept
  accept-Within group config base wm_offset [] h e = tt
  accept-Within group config base wm_offset (c ∷ cs) h e = inr (c ∷ cs, refl, h, e)

  agree-Within :
      (group : String → String) (config : SelectionConfig F) (base : SelectionDiagnostics F)
      (left : List (ScoredResult F))
      → All P left
      → base.intersection ≡ inter
      → Within (agree group config base left)
  unfolding agree
  agree-Within group config base left h e =
      let active = sort_by_offset left in
      let wm = weighted_median active in
      let close = agrees (fl.of_int config.max_offset_skew_ms) wm in
      if_intro Within (ltb (length (keep close active)) config.min_quorum) (inl refl) (
        accept-Within group config base wm (keep close active)
          (All-keep P close active (All-sort_by_offset P left h)) e)

module _ {F : Type 0} ⦃fl : Float F⦄ (P : ScoredResult F → Type 0) (group : String → String)
    (config : SelectionConfig F) where
  -- A candidate with the property, whose interval spans the region.
  abbrev pub SpansToo : MarzulloResult F → ScoredResult F → Type 0
  SpansToo mr c = P c × (spans mr.intersection_low_ms mr.intersection_high_ms c ≡ true)

  -- What the filter by the intersection leads to.
  abbrev pub SpansRegion : MarzulloResult F → Option (SelectionOutput F) → Type 0
  SpansRegion mr = Within (SpansToo mr) (with_region IntersectionState.ok mr)

  -- The candidates that are left are those that span the region.
  picked-SpansToo :
      (candidates : List (ScoredResult F)) (mr : MarzulloResult F)
      → All P candidates
      → mr.truechimer_indices
        ≡ truechimers mr.intersection_low_ms mr.intersection_high_ms 0 candidates
      → All (SpansToo mr) (pick mr.truechimer_indices 0 candidates)
  picked-SpansToo candidates mr p h =
      let lo = mr.intersection_low_ms in
      let hi = mr.intersection_high_ms in
      let left = ap (λ ks. pick ks 0 candidates) h ∙ pick-truechimers lo hi 0 candidates in
      subst (All (SpansToo mr)) (sym left) (
        All-both P (λ c. spans lo hi c ≡ true) (keep (spans lo hi) candidates)
          (All-keep P (spans lo hi) candidates p) (keep-All (spans lo hi) candidates))

  after_filter-SpansRegion :
      (base : SelectionDiagnostics F) (candidates : List (ScoredResult F)) (mr : MarzulloResult F)
      (state : MarzulloState)
      → All P candidates
      → mr.truechimer_indices
        ≡ truechimers mr.intersection_low_ms mr.intersection_high_ms 0 candidates
      → SpansRegion mr (after_filter group config base candidates mr state)
  unfolding after_filter
  after_filter-SpansRegion base candidates mr MarzulloState.ok p h =
      agree-Within (SpansToo mr) (with_region IntersectionState.ok mr) group config
        (record base { intersection = with_region IntersectionState.ok mr })
        (pick mr.truechimer_indices 0 candidates) (picked-SpansToo candidates mr p h) refl
  after_filter-SpansRegion base candidates mr MarzulloState.no_intersection p h = inl refl
  after_filter-SpansRegion base candidates mr MarzulloState.insufficient_quorum p h = inl refl
  after_filter-SpansRegion base candidates mr MarzulloState.ambiguous_cluster p h = inl refl

  answered-SpansRegion :
      (base : SelectionDiagnostics F) (candidates : List (ScoredResult F)) (mr : MarzulloResult F)
      → All P candidates
      → Answer candidates config.min_quorum mr
      → SpansRegion mr (after_filter group config base candidates mr mr.state)
  unfolding after_filter
  answered-SpansRegion base candidates mr p (accepted _ indices _ _ _) =
      after_filter-SpansRegion base candidates mr mr.state p indices
  answered-SpansRegion base candidates mr p (refused (inl none_found) _ _) =
      subst (λ state. SpansRegion mr (after_filter group config base candidates mr state))
        (sym none_found) (inl refl)
  answered-SpansRegion base candidates mr p (refused (inr several) _ _) =
      subst (λ state. SpansRegion mr (after_filter group config base candidates mr state))
        (sym several) (inl refl)

  choose-SpansRegion :
      (candidates : List (ScoredResult F)) (rejected : List RejectedSource)
      → All P candidates
      → config.interval_selection_enabled ≡ true
      → config.min_quorum < 2 ^ 31
      → SpansRegion
          (marzullo_filter candidates config.min_quorum)
          (choose group config candidates rejected)
  unfolding choose
  choose-SpansRegion [] rejected p on small = inl refl
  choose-SpansRegion (c ∷ cs) rejected p on small =
      let mr = marzullo_filter (c ∷ cs) config.min_quorum in
      if_cases (SpansRegion mr) config.interval_selection_enabled
        (λ _.
          answered-SpansRegion (base_diagnostics config (c ∷ cs) rejected) (c ∷ cs) mr p
            (marzullo_filter-Answer (c ∷ cs) config.min_quorum small))
        (λ off. absurd (ground arith))

-- With the intersection on and a quorum below 2^31: where select selects a result, every agreer is
-- a result of this round that passed the gates, and its interval, by the root distance that the
-- gates computed for it, spans the region that marzullo_filter found for the candidates; and select
-- reports that region.
pub select-SpansRegion :
    {F : Type 0} ⦃fl : Float F⦄ (group : String → String) (config : SelectionConfig F)
    (now : Instant) (results : List NtpResult) (jitters : JitterMap)
    → config.interval_selection_enabled ≡ true
    → config.min_quorum < 2 ^ 31
    → SpansRegion
        (λ c. IsGated config now jitters c × Memᴰ c.result results)
        group
        config
        (marzullo_filter (gather config now jitters results).0 config.min_quorum)
        (select group now results jitters config)
unfolding select
select-SpansRegion group config now results jitters =
    choose-SpansRegion (λ c. IsGated config now jitters c × Memᴰ c.result results) group config
      (gather config now jitters results).0 (gather config now jitters results).1
      (gather-All config now jitters (λ r. Memᴰ r results) results (self_members results))
