-- ===== src/Marzullo.antt =====
-- src/ntp/selection.rs: `marzullo_filter`, the sweep over the uncertainty intervals.
-- Offsets and distances are of a type of floating-point numbers. The overlap count is an `i32`; it
-- stays within the number of candidates and is a plain integer here.
pub mod Counting
pub mod Sweeping
pub mod Quorum
use ntp_time_json_api.Common.{
  ℕ, ◌+◌, ◌-◌, ◌%◌, ◌^◌, Bool, true, false, not, ◌&&◌, Option, none, some, List, [], ◌∷◌, ltb, leb,
  ◌==◌, if◌then◌else◌, length, keep,
}
use ntp_time_json_api.Common.Int.{ℤ, pos, negsuc, ◌+ℤ◌, leb_ℤ, ltb_ℤ}
use ntp_time_json_api.Common.Float.{Float, ◌≤?◌, ◌<?◌}
use ntp_time_json_api.Samples.{NtpResult}

pub record ScoredResult (F : Type 0) : Type 0 where
  pub result : NtpResult
  pub lambda_ms : F
  pub weight : F

pub data MarzulloState : Type 0 where
  ok no_intersection insufficient_quorum ambiguous_cluster : MarzulloState

pub record MarzulloResult (F : Type 0) : Type 0 where
  pub state : MarzulloState
  pub intersection_low_ms : F
  pub intersection_high_ms : F
  pub truechimer_indices : List ℕ
  pub falseticker_count : ℕ
  pub competing_cluster_count : ℕ

-- The second half of an event, +1 or -1.
pub data Kind : Type 0 where
  opens closes : Kind

abbrev pub kind_value : Kind → ℤ
kind_value opens = pos 1
kind_value closes = negsuc 0

pub record Event (F : Type 0) : Type 0 where
  pub at : F
  pub kind : Kind

-- The locals of the sweep.
pub record SweepState (F : Type 0) : Type 0 where
  pub count : ℤ
  pub significant_clusters : ℕ
  pub in_sig : Bool
  pub max_in_cluster : ℤ
  pub peak_lo : F
  pub peak_hi : F
  pub in_peak : Bool
  pub peak_found : Bool

-- `min_quorum as i32`.
abbrev pub as_i32 : ℕ → ℤ
as_i32 n = let r = n % 2 ^ 32 in if ltb r (2 ^ 31) then pos r else negsuc (2 ^ 32 - 1 - r)

-- Opens come before closes at the same value.
abbrev kind_before : Kind → Kind → Bool
kind_before closes opens = false
kind_before _ _ = true

module _ {F : Type 0} ⦃fl : Float F⦄ where
  abbrev pub low_end : ScoredResult F → F
  low_end c = fl.sub (fl.of_int c.result.offset_ms) c.lambda_ms

  abbrev pub high_end : ScoredResult F → F
  high_end c = fl.add (fl.of_int c.result.offset_ms) c.lambda_ms

  unfoldable pub events : List (ScoredResult F) → List (Event F)
  events [] = []
  events (c ∷ cs) =
      record { at = low_end c; kind = opens }
      ∷ record { at = high_end c; kind = closes }
      ∷ events cs

  -- The order of the sort: `a` may stand before `b`.
  abbrev pub event_before : Event F → Event F → Bool
  event_before a b = if a.at <? b.at then true else (a.at ≤? b.at) && kind_before a.kind b.kind

  unfoldable pub insert_event : Event F → List (Event F) → List (Event F)
  insert_event e [] = e ∷ []
  insert_event e (x ∷ xs) = if event_before e x then e ∷ x ∷ xs else x ∷ insert_event e xs

  -- `sort_by`, which is stable.
  unfoldable pub sort_events : List (Event F) → List (Event F)
  unfolding insert_event
  sort_events [] = []
  sort_events (e ∷ es) = insert_event e (sort_events es)

  unfoldable pub sweep_start : SweepState F
  sweep_start = record {
    count = pos 0;
    significant_clusters = 0;
    in_sig = false;
    max_in_cluster = pos 0;
    peak_lo = fl.of_int (pos 0);
    peak_hi = fl.of_int (pos 0);
    in_peak = false;
    peak_found = false;
  }

  -- Entering a significant cluster.
  abbrev enter_cluster : F → SweepState F → SweepState F
  enter_cluster v s =
      let s' = record s { in_sig = true; significant_clusters = s.significant_clusters + 1 } in
      if s'.significant_clusters == 1
      then record s' { max_in_cluster = s.count; peak_lo = v; in_peak = true; peak_found = false }
      else s'

  -- Leaving it.
  abbrev leave_cluster : F → SweepState F → SweepState F
  leave_cluster v s =
      let s' =
        if s.significant_clusters == 1 && s.in_peak
        then record s { peak_hi = v; in_peak = false; peak_found = true }
        else s in
      record s' { in_sig = false }

  -- Still inside the first one.
  abbrev track_peak : F → SweepState F → SweepState F
  track_peak v s =
      if ltb_ℤ s.max_in_cluster s.count
      then record s { max_in_cluster = s.count; peak_lo = v; in_peak = true; peak_found = false }
      else if s.in_peak && ltb_ℤ s.count s.max_in_cluster
      then record s { peak_hi = v; in_peak = false; peak_found = true }
      else s

  unfoldable pub sweep_event : ℤ → Event F → SweepState F → SweepState F
  sweep_event min_q e s =
      let s' = record s { count = s.count +ℤ kind_value e.kind } in
      if not s'.in_sig && leb_ℤ min_q s'.count
      then enter_cluster e.at s'
      else if s'.in_sig && ltb_ℤ s'.count min_q
      then leave_cluster e.at s'
      else if s'.in_sig && s'.significant_clusters == 1
      then track_peak e.at s'
      else s'

  unfoldable pub sweep : ℤ → List (Event F) → SweepState F → SweepState F
  sweep min_q [] s = s
  sweep min_q (e ∷ es) s = sweep min_q es (sweep_event min_q e s)

  abbrev pub last_at : List (Event F) → F → F
  last_at [] d = d
  last_at (e ∷ es) d = last_at es e.at

  abbrev pub first_at : List (Event F) → F → F
  first_at [] d = d
  first_at (e ∷ es) d = e.at

  -- A peak that is still open at the end is closed there.
  unfoldable pub close_peak : List (Event F) → SweepState F → SweepState F
  close_peak es s =
      if s.in_sig && s.significant_clusters == 1 && s.in_peak
      then record s { peak_hi = last_at es s.peak_lo; peak_found = true }
      else s

  abbrev pub spans : F → F → ScoredResult F → Bool
  spans r_lo r_hi c = (low_end c ≤? r_lo) && (r_hi ≤? high_end c)

  -- The indices, from `i` on, of the candidates that span the region.
  unfoldable pub truechimers : F → F → ℕ → List (ScoredResult F) → List ℕ
  truechimers r_lo r_hi i [] = []
  truechimers r_lo r_hi i (c ∷ cs) =
      let rest = truechimers r_lo r_hi (i + 1) cs in if spans r_lo r_hi c then i ∷ rest else rest

  abbrev no_region : MarzulloState → ℕ → ℕ → MarzulloResult F
  no_region state falsetickers clusters = record {
    state = state;
    intersection_low_ms = fl.of_int (pos 0);
    intersection_high_ms = fl.of_int (pos 0);
    truechimer_indices = [];
    falseticker_count = falsetickers;
    competing_cluster_count = clusters;
  }

  -- The end of the function: exactly one significant cluster, with its region.
  unfoldable pub region_result : ℕ → List (ScoredResult F) → F → F → MarzulloResult F
  unfolding truechimers
  region_result min_quorum candidates r_lo r_hi =
      let indices = truechimers r_lo r_hi 0 candidates in
      record {
        state = if ltb (length indices) min_quorum then insufficient_quorum else ok;
        intersection_low_ms = r_lo;
        intersection_high_ms = r_hi;
        truechimer_indices = indices;
        falseticker_count = length candidates - length indices;
        competing_cluster_count = 1;
      }

  unfoldable pub after_sweep :
      ℕ → List (ScoredResult F) → List (Event F) → SweepState F → MarzulloResult F
  unfolding region_result
  after_sweep min_quorum candidates es s =
      if s.significant_clusters == 0
      then no_region no_intersection (length candidates) 0
      else if ltb 1 s.significant_clusters
      then no_region ambiguous_cluster (length candidates) s.significant_clusters
      else if s.peak_found
      then region_result min_quorum candidates s.peak_lo s.peak_hi
      else let lo = first_at es (fl.of_int (pos 0)) in
        region_result min_quorum candidates lo (last_at es lo)

  unfoldable pub marzullo_filter : List (ScoredResult F) → ℕ → MarzulloResult F
  unfolding events sort_events sweep_start sweep close_peak after_sweep
  marzullo_filter [] min_quorum = no_region no_intersection 0 0
  marzullo_filter (c ∷ cs) min_quorum =
      let es = sort_events (events (c ∷ cs)) in
      after_sweep min_quorum (c ∷ cs) es (close_peak es (sweep (as_i32 min_quorum) es sweep_start))
