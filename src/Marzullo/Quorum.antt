-- ===== src/Marzullo/Quorum.antt =====
-- src/ntp/selection.rs: an accepted intersection is backed by a quorum of truechimers.
use ntp_time_json_api.Common.{
  ℕ, ◌+◌, ◌^◌, ◌≤◌, ◌<◌, ◌≡◌, refl, ◌⊎◌, inl, inr, true, List, [], ◌∷◌, arith, length, ltb,
  if_cases, ◌==◌,
}
use ntp_time_json_api.Common.Float.{Float}
use ntp_time_json_api.Marzullo.{
  ScoredResult, MarzulloResult, ok, no_intersection, ambiguous_cluster, Event, SweepState, as_i32,
  events, sort_events, sweep_start, sweep, close_peak, truechimers, region_result, after_sweep,
  marzullo_filter,
}
use ntp_time_json_api.Marzullo.Counting.{
  count_if-sort_events, sort_events-IsSorted, truechimers_enough, open_by, closed_before,
}
use ntp_time_json_api.Marzullo.Sweeping.{Covers, sweep-Covers}

module _ {F : Type 0} ⦃fl : Float F⦄ where
  -- What `marzullo_filter` may answer: no region, with every candidate a falseticker; or one
  -- region, with a quorum of truechimers, which are the candidates that span it, and the others
  -- falsetickers.
  pub data Answer (cs : List (ScoredResult F)) (min_quorum : ℕ) (r : MarzulloResult F)
      : Type 0 where
    refused :
        (r.state ≡ no_intersection) ⊎ (r.state ≡ ambiguous_cluster)
        → r.truechimer_indices ≡ []
        → r.falseticker_count ≡ length cs
        → Answer cs min_quorum r
    accepted :
        r.state ≡ ok
        → r.truechimer_indices ≡ truechimers r.intersection_low_ms r.intersection_high_ms 0 cs
        → min_quorum ≤ length r.truechimer_indices
        → length r.truechimer_indices + r.falseticker_count ≡ length cs
        → r.competing_cluster_count ≡ 1
        → Answer cs min_quorum r

  truechimers-le :
      (lo hi : F) (i : ℕ) (cs : List (ScoredResult F)) → length (truechimers lo hi i cs) ≤ length cs
  unfolding truechimers
  truechimers-le lo hi i [] = omega arith
  truechimers-le lo hi i (c ∷ cs) = ground (arith, truechimers-le lo hi (i + 1) cs)

  region-Answer :
      (cs : List (ScoredResult F)) (min_quorum : ℕ) (lo hi : F)
      → min_quorum ≤ length (truechimers lo hi 0 cs)
      → Answer cs min_quorum (region_result min_quorum cs lo hi)
  unfolding region_result
  region-Answer cs min_quorum lo hi h =
      accepted (ground arith) refl h (omega (arith, truechimers-le lo hi 0 cs)) refl

  -- The candidates that span a region that is covered `min_quorum` times.
  Covers-truechimers :
      (cs : List (ScoredResult F)) (min_quorum : ℕ) (lo hi : F)
      → min_quorum < 2 ^ 31
      → Covers (as_i32 min_quorum) (sort_events (events cs)) lo hi
      → min_quorum ≤ length (truechimers lo hi 0 cs)
  Covers-truechimers cs min_quorum lo hi small h = ground (
    arith,
    count_if-sort_events (closed_before hi) (events cs),
    count_if-sort_events (open_by lo) (events cs),
    truechimers_enough lo hi 0 cs,
  )

  after_sweep-Answer :
      (cs : List (ScoredResult F)) (min_quorum : ℕ) (es : List (Event F)) (s : SweepState F)
      → (s.significant_clusters ≡ 1
          → (s.peak_found ≡ true) × (min_quorum ≤ length (truechimers s.peak_lo s.peak_hi 0 cs)))
      → Answer cs min_quorum (after_sweep min_quorum cs es s)
  unfolding after_sweep
  after_sweep-Answer cs min_quorum es s h =
      if_cases (Answer cs min_quorum) (s.significant_clusters == 0)
        (λ _. refused (inl refl) refl refl)
        (λ some_cluster.
          if_cases (Answer cs min_quorum) (ltb 1 s.significant_clusters)
            (λ _. refused (inr refl) refl refl)
            (λ at_most_one.
              let (found, enough) = h (ground arith) in
              if_cases (Answer cs min_quorum) s.peak_found
                (λ _. region-Answer cs min_quorum s.peak_lo s.peak_hi enough)
                (λ missing. ground arith)))

  -- Whatever the candidates are, `marzullo_filter` refuses them all for want of a cluster or for
  -- more than one, or it accepts a region that a quorum of them spans: the answer
  -- `InsufficientQuorum` is never given.
  pub marzullo_filter-Answer :
      (cs : List (ScoredResult F)) (min_quorum : ℕ)
      → min_quorum < 2 ^ 31
      → Answer cs min_quorum (marzullo_filter cs min_quorum)
  unfolding marzullo_filter
  marzullo_filter-Answer [] min_quorum h = refused (inl refl) refl refl
  marzullo_filter-Answer (c ∷ cs) min_quorum h =
      let es = sort_events (events (c ∷ cs)) in
      after_sweep-Answer (c ∷ cs) min_quorum es
        (close_peak es (sweep (as_i32 min_quorum) es sweep_start))
        λ one.
          let (found, covers) =
            sweep-Covers (as_i32 min_quorum) es (sort_events-IsSorted (events (c ∷ cs))) one in
          (found, Covers-truechimers (c ∷ cs) min_quorum _ _ h covers)
