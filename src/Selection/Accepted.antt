-- ===== src/Selection/Accepted.antt =====
-- src/ntp/selection.rs: what a selection rests on.
use ntp_time_json_api.Common.{
  ◌≤◌, ◌≡◌, ◌≢◌, refl, true, Option, none, some, List, [], ◌∷◌, String, ltb, if_intro, if_cases,
  length, map, keep, All, arith,
}
use mathlib.Core.List.{Memᴰ}
use ntp_time_json_api.Common.Float.{Float, ◌≤?◌}
use ntp_time_json_api.Samples.{Instant, NtpResult}
use ntp_time_json_api.Marzullo.{ScoredResult, MarzulloState, MarzulloResult, marzullo_filter}
use ntp_time_json_api.Selection.{SelectionConfig, RejectedSource, JitterMap, gather}
use ntp_time_json_api.Selection.Consensus.{pick, sort_by_offset, weighted_median, agrees, best_of}
use ntp_time_json_api.Selection.Select.{
  SelectionState, SelectionOutput, SelectionDiagnostics, IntersectionState, with_region,
  base_diagnostics, accept, agree, after_filter, choose, select,
}
use ntp_time_json_api.Selection.Kept.{
  All-keep, keep-All, All-pick, All-sort_by_offset, best_of-all, best_of-le_first, best_of-le,
}
use ntp_time_json_api.Selection.Gates.{IsGated, gather-All, self_members}

-- The agreers behind a selection, and what holds of them.
pub record Accepts {F : Type 0} ⦃fl : Float F⦄ (P : ScoredResult F → Type 0)
    (config : SelectionConfig F) (out : SelectionOutput F) : Type 0 where
  pub agreers : List (ScoredResult F)
  pub best : ScoredResult F
  pub wm_offset : F
  pub selected : out.selected ≡ some best.result
  pub listed : out.agreers ≡ map (λ a. a.result) agreers
  pub reported : out.diagnostics.weighted_median_offset_ms ≡ some wm_offset
  pub enough : config.min_quorum ≤ length agreers
  pub all_pass : All P agreers
  pub best_passes : P best
  pub all_close : All (λ a. agrees (fl.of_int config.max_offset_skew_ms) wm_offset a ≡ true) agreers
  pub closest : All (λ a. (best.lambda_ms ≤? a.lambda_ms) ≡ true) agreers
  pub state : out.diagnostics.selection_state ≡ SelectionState.ok

-- What the selection may answer.
pub data Choice {F : Type 0} ⦃fl : Float F⦄ (P : ScoredResult F → Type 0)
    (config : SelectionConfig F) : Option (SelectionOutput F) → Type 0 where
  refused :
      (out : SelectionOutput F)
      → out.selected ≡ none
      → out.agreers ≡ []
      → out.diagnostics.selection_state ≢ SelectionState.ok
      → Choice P config (some out)
  accepted : (out : SelectionOutput F) → Accepts P config out → Choice P config (some out)

module _ {F : Type 0} ⦃fl : Float F⦄ (P : ScoredResult F → Type 0) (group : String → String)
    (config : SelectionConfig F) (positive : config.min_quorum ≢ 0) where
  accept-Choice :
      (base : SelectionDiagnostics F) (wm_offset : F) (cs : List (ScoredResult F))
      → config.min_quorum ≤ length cs
      → All P cs
      → All (λ a. agrees (fl.of_int config.max_offset_skew_ms) wm_offset a ≡ true) cs
      → Choice P config (accept group config base wm_offset cs)
  unfolding accept
  accept-Choice base wm_offset [] enough h close = absurd (omega arith)
  accept-Choice base wm_offset (c ∷ cs) enough h close = accepted _ (record {
    agreers = c ∷ cs;
    best = best_of c cs;
    wm_offset = wm_offset;
    selected = refl;
    listed = refl;
    reported = refl;
    enough = enough;
    all_pass = h;
    best_passes = best_of-all P c cs h.0 h.1;
    all_close = close;
    closest = (best_of-le_first c cs, best_of-le c cs);
    state = refl;
  })

  agree-Choice :
      (base : SelectionDiagnostics F) (left : List (ScoredResult F))
      → All P left
      → Choice P config (agree group config base left)
  unfolding agree
  agree-Choice base left h =
      let active = sort_by_offset left in
      let wm = weighted_median active in
      let close = agrees (fl.of_int config.max_offset_skew_ms) wm in
      let agreers = keep close active in
      if_cases (Choice P config) (ltb (length agreers) config.min_quorum)
        (λ few. refused _ refl refl (ground arith))
        (λ enough.
          accept-Choice base wm agreers (ground (arith, enough))
            (All-keep P close active (All-sort_by_offset P left h)) (keep-All close active))

  after_filter-Choice :
      (base : SelectionDiagnostics F) (candidates : List (ScoredResult F)) (mr : MarzulloResult F)
      (state : MarzulloState)
      → All P candidates
      → Choice P config (after_filter group config base candidates mr state)
  unfolding after_filter
  after_filter-Choice base candidates mr MarzulloState.ok h =
      agree-Choice (record base { intersection = with_region IntersectionState.ok mr })
        (pick mr.truechimer_indices 0 candidates) (All-pick P mr.truechimer_indices 0 candidates h)
  after_filter-Choice base candidates mr MarzulloState.no_intersection h =
      refused _ refl refl (ground arith)
  after_filter-Choice base candidates mr MarzulloState.insufficient_quorum h =
      refused _ refl refl (ground arith)
  after_filter-Choice base candidates mr MarzulloState.ambiguous_cluster h =
      refused _ refl refl (ground arith)

  choose-Choice :
      (candidates : List (ScoredResult F)) (rejected : List RejectedSource)
      → All P candidates
      → Choice P config (choose group config candidates rejected)
  unfolding choose
  choose-Choice [] rejected h = refused _ refl refl (ground arith)
  choose-Choice (c ∷ cs) rejected h =
      let base = base_diagnostics config (c ∷ cs) rejected in
      let mr = marzullo_filter (c ∷ cs) config.min_quorum in
      if_intro (Choice P config) config.interval_selection_enabled
        (after_filter-Choice base (c ∷ cs) mr mr.state h) (agree-Choice base (c ∷ cs) h)

-- With a quorum of one at least, the selection always answers. It refuses, with no agreer and a
-- state that is not `ok`; or it selects a result, and then the agreers are at least a quorum, every
-- one of them and the selected one is a result that passed the gates, every agreer lies within the
-- allowed skew of the reported median, and none has a lower root distance than the selected one.
pub select-Choice :
    {F : Type 0} ⦃fl : Float F⦄ (group : String → String) (now : Instant) (results : List NtpResult)
    (jitters : JitterMap) (config : SelectionConfig F)
    → config.min_quorum ≢ 0
    → Choice
        (λ c. IsGated config now jitters c × Memᴰ c.result results)
        config
        (select group now results jitters config)
unfolding select
select-Choice group now results jitters config positive =
    choose-Choice (λ c. IsGated config now jitters c × Memᴰ c.result results) group config positive
      (gather config now jitters results).0 (gather config now jitters results).1
      (gather-All config now jitters (λ r. Memᴰ r results) results (self_members results))
