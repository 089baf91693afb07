-- ===== src/Selection/Select.antt =====
-- src/ntp/selection.rs: `WeightedMedianSelector::select` with its diagnostics.
-- The provider group of a server is an argument. A result of `none` stands for the panic of the
-- `unwrap` on the best agreer.
use ntp_time_json_api.Common.{
  ℕ, Bool, true, false, Option, none, some, List, [], ◌∷◌, String, ltb, if◌then◌else◌, length, map,
  keep,
}
use ntp_time_json_api.Common.Int.{pos}
use ntp_time_json_api.Common.Float.{Float, F64, number, times, ◌<f64◌, max_float}
use ntp_time_json_api.Samples.{Instant, NtpResult}
use ntp_time_json_api.Marzullo.{ScoredResult, MarzulloState, MarzulloResult, marzullo_filter}
use ntp_time_json_api.Selection.{SelectionConfig, RejectedSource, JitterMap, gather}
use ntp_time_json_api.Selection.Consensus.{
  pick, group_counts, max_count, sort_by_offset, weighted_median, agrees, best_of,
}

pub data SelectionState : Type 0 where
  ok no_quorum no_candidates no_intersection ambiguous_cluster : SelectionState

pub data IntersectionState : Type 0 where
  disabled ok no_intersection insufficient_quorum ambiguous_cluster : IntersectionState

pub record IntersectionDiagnostics (F : Type 0) : Type 0 where
  pub enabled : Bool
  pub state : IntersectionState
  pub intersection_low_ms : Option F
  pub intersection_high_ms : Option F
  pub intersection_width_ms : Option F
  pub truechimer_count : ℕ
  pub falseticker_count : ℕ
  pub competing_cluster_count : ℕ

pub record SelectionDiagnostics (F : Type 0) : Type 0 where
  pub quorum_size : ℕ
  pub candidate_count : ℕ
  pub rejected_count : ℕ
  pub rejected_sources : List RejectedSource
  pub combined_uncertainty_ms : Option F
  pub selected_server : Option String
  pub single_provider : Bool
  pub selection_state : SelectionState
  pub max_root_distance_ms : F64 F
  pub min_quorum : ℕ
  pub weighted_median_offset_ms : Option F
  pub candidate_lambdas : List (String × F)
  pub intersection : IntersectionDiagnostics F

pub record SelectionOutput (F : Type 0) : Type 0 where
  pub selected : Option NtpResult
  pub agreers : List NtpResult
  pub diagnostics : SelectionDiagnostics F

module _ {F : Type 0} ⦃fl : Float F⦄ where
  abbrev pub no_diagnostics : IntersectionDiagnostics F
  no_diagnostics = record {
    enabled = false;
    state = IntersectionState.disabled;
    intersection_low_ms = none;
    intersection_high_ms = none;
    intersection_width_ms = none;
    truechimer_count = 0;
    falseticker_count = 0;
    competing_cluster_count = 0;
  }

  abbrev without_region : IntersectionState → MarzulloResult F → IntersectionDiagnostics F
  without_region state mr = record no_diagnostics {
    enabled = true;
    state = state;
    falseticker_count = mr.falseticker_count;
    competing_cluster_count = mr.competing_cluster_count;
  }

  abbrev pub with_region : IntersectionState → MarzulloResult F → IntersectionDiagnostics F
  with_region state mr = record {
    enabled = true;
    state = state;
    intersection_low_ms = some mr.intersection_low_ms;
    intersection_high_ms = some mr.intersection_high_ms;
    intersection_width_ms = some (fl.sub mr.intersection_high_ms mr.intersection_low_ms);
    truechimer_count = length mr.truechimer_indices;
    falseticker_count = mr.falseticker_count;
    competing_cluster_count = mr.competing_cluster_count;
  }

  -- What the diagnostics say on every path.
  abbrev pub base_diagnostics :
      SelectionConfig F → List (ScoredResult F) → List RejectedSource → SelectionDiagnostics F
  base_diagnostics config candidates rejected = record {
    quorum_size = 0;
    candidate_count = length candidates;
    rejected_count = length rejected;
    rejected_sources = rejected;
    combined_uncertainty_ms = none;
    selected_server = none;
    single_provider = false;
    selection_state = SelectionState.no_candidates;
    max_root_distance_ms = config.max_root_distance_ms;
    min_quorum = config.min_quorum;
    weighted_median_offset_ms = none;
    candidate_lambdas = map (λ c. (c.result.server, c.lambda_ms)) candidates;
    intersection = no_diagnostics;
  }

  abbrev refuse : SelectionDiagnostics F → SelectionOutput F
  refuse diagnostics = record { selected = none; agreers = []; diagnostics = diagnostics }

  abbrev radius_of : Option F → F
  radius_of none = fl.of_int (pos 0)
  radius_of (some w) = fl.div w (fl.of_int (pos 2))

  -- The agreers are enough: the best of them is selected.
  unfoldable pub accept :
      (String → String)
      → SelectionConfig F
      → SelectionDiagnostics F
      → F
      → List (ScoredResult F)
      → Option (SelectionOutput F)
  accept group config base wm_offset [] = none
  accept group config base wm_offset (c ∷ cs) =
      let agreers = c ∷ cs in
      let max_group = max_count (group_counts (map (λ a. group a.result.server) agreers) []) in
      let share = times (fl.of_int (pos (length agreers))) config.provider_group_max_fraction in
      let single_provider = share <f64 number (fl.of_int (pos max_group)) in
      let best = best_of c cs in
      let uncertainty =
        max_float best.lambda_ms (radius_of base.intersection.intersection_width_ms) in
      some (record {
        selected = some best.result;
        agreers = map (λ a. a.result) agreers;
        diagnostics = record base {
          quorum_size = length agreers;
          combined_uncertainty_ms =
              some
                (if single_provider then fl.mul uncertainty (fl.of_int (pos 2)) else uncertainty);
          selected_server = some best.result.server;
          single_provider = single_provider;
          selection_state = SelectionState.ok;
          weighted_median_offset_ms = some wm_offset;
        };
      })

  -- From the weighted median on, over the candidates that are left.
  unfoldable pub agree :
      (String → String)
      → SelectionConfig F
      → SelectionDiagnostics F
      → List (ScoredResult F)
      → Option (SelectionOutput F)
  unfolding accept
  agree group config base left =
      let active = sort_by_offset left in
      let wm_offset = weighted_median active in
      let agreers = keep (agrees (fl.of_int config.max_offset_skew_ms) wm_offset) active in
      if ltb (length agreers) config.min_quorum
      then some (
          refuse (record base {
            quorum_size = length agreers;
            selection_state = SelectionState.no_quorum;
            weighted_median_offset_ms = some wm_offset;
          }))
      else accept group config base wm_offset agreers

  -- The candidates that the intersection leaves, or the refusal.
  unfoldable pub after_filter :
      (String → String)
      → SelectionConfig F
      → SelectionDiagnostics F
      → List (ScoredResult F)
      → MarzulloResult F
      → MarzulloState
      → Option (SelectionOutput F)
  unfolding agree
  after_filter group config base candidates mr MarzulloState.no_intersection = some (
      refuse (record base {
        selection_state = SelectionState.no_intersection;
        intersection = without_region IntersectionState.no_intersection mr;
      }))
  after_filter group config base candidates mr MarzulloState.ambiguous_cluster = some (
      refuse (record base {
        selection_state = SelectionState.ambiguous_cluster;
        intersection = without_region IntersectionState.ambiguous_cluster mr;
      }))
  after_filter group config base candidates mr MarzulloState.insufficient_quorum = some (
      refuse (record base {
        quorum_size = length mr.truechimer_indices;
        selection_state = SelectionState.no_intersection;
        intersection = with_region IntersectionState.insufficient_quorum mr;
      }))
  after_filter group config base candidates mr MarzulloState.ok =
      agree group config (record base { intersection = with_region IntersectionState.ok mr })
        (pick mr.truechimer_indices 0 candidates)

  unfoldable pub choose :
      (String → String)
      → SelectionConfig F
      → List (ScoredResult F)
      → List RejectedSource
      → Option (SelectionOutput F)
  unfolding agree after_filter
  choose group config [] rejected = some (refuse (base_diagnostics config [] rejected))
  choose group config (c ∷ cs) rejected =
      let base = base_diagnostics config (c ∷ cs) rejected in
      let mr = marzullo_filter (c ∷ cs) config.min_quorum in
      if config.interval_selection_enabled
      then after_filter group config base (c ∷ cs) mr mr.state
      else agree group config base (c ∷ cs)

  unfoldable pub select :
      (String → String)
      → Instant
      → List NtpResult
      → JitterMap
      → SelectionConfig F
      → Option (SelectionOutput F)
  unfolding choose
  select group now results jitters config =
      let (candidates, rejected) = gather config now jitters results in
      choose group config candidates rejected
