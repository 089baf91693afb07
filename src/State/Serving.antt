-- ===== src/State/Serving.antt =====
-- src/http/state.rs: when a time is served, and as what.
use ntp_time_json_api.Common.{
  ◌/◌, ◌≡◌, refl, sym, ◌∙◌, ◌⊎◌, inl, inr, Bool, true, false, Option, none, some, if_cases, arith,
  ltb,
}
use ntp_time_json_api.Common.Float.{Float, number, ◌≤f64◌}
use ntp_time_json_api.Samples.{SyncQuality}
use ntp_time_json_api.Quality.{compute_dispersion_ms}
use ntp_time_json_api.TimeBase.{TimeBase, has_synced, is_manual_active}
use ntp_time_json_api.State.{
  ManualOverrideState, Source, ServeState, TimeQuality, AppState, QualityReadings, judge, age_of,
  ntp_quality, manual_quality, without_override, with_override, compute_quality,
}

module _ {F : Type 0} ⦃fl : Float F⦄ where
  -- What is known of a time by how it is served.
  abbrev pub Judged : AppState F → Bool → F → Source × ServeState → Type 0
  Judged s stale u (source, ServeState.ok) =
      (source ≡ Source.ntp)
      × (stale ≡ false)
      × ((number u ≤f64 s.config.quality.serve_ok_max_uncertainty_ms) ≡ true)
  Judged s stale u (source, ServeState.degraded) =
      (source ≡ Source.degraded)
      × ((number u ≤f64 s.config.quality.serve_degraded_max_uncertainty_ms) ≡ true)
      × (((s.config.quality.strict_sla_mode ≡ true) × (s.config.quality.allow_degraded ≡ true))
          ⊎ ((s.config.quality.strict_sla_mode ≡ false) × (stale ≡ false)))
  Judged s stale u (source, ServeState.holdover) =
      (source ≡ Source.holdover)
      × (s.config.quality.strict_sla_mode ≡ false)
      × ((stale ≡ true)
          ⊎ ((number u ≤f64 s.config.quality.serve_degraded_max_uncertainty_ms) ≡ false))
  Judged s stale u (source, ServeState.stopped) =
      (source ≡ Source.degraded)
      × (s.config.quality.strict_sla_mode ≡ true)
      × (((number u ≤f64 s.config.quality.serve_degraded_max_uncertainty_ms) ≡ false)
          ⊎ (s.config.quality.allow_degraded ≡ false))
  Judged s stale u (source, ServeState.unsynced) = true ≡ false

  judge-Judged : (s : AppState F) (stale : Bool) (u : F) → Judged s stale u (judge s stale u)
  unfolding judge
  judge-Judged s stale u = ground arith

  module _ (at : QualityReadings) (s : AppState F) where
    -- The age and the uncertainty of a sync, against the limits.
    abbrev pub is_stale : SyncQuality → Bool
    is_stale q = ltb s.config.ntp.max_staleness_secs (age_of at.at_age q / 1000)

    abbrev pub NoOverride : Type 0
    NoOverride = ((is_manual_active at.at_manual s.timebase).1 ≡ false) ⊎ (s.override_state ≡ none)

    -- What a time is reported as, and why.
    pub data Reported (q : TimeQuality F) : Type 0 where
      by_override :
          (ov : ManualOverrideState)
          → (is_manual_active at.at_manual s.timebase).1 ≡ true
          → s.override_state ≡ some ov
          → q.source ≡ Source.manual
          → q.serve_state ≡ ServeState.ok
          → Reported q
      by_sync :
          (sq : SyncQuality)
          → NoOverride
          → s.last_sync_quality ≡ some sq
          → q.uncertainty_ms ≡ some (compute_dispersion_ms F at.at_dispersion sq)
          → Judged s
              (is_stale sq)
              (compute_dispersion_ms F at.at_dispersion sq)
              (q.source, q.serve_state)
          → Reported q
      by_seed :
          NoOverride
          → s.last_sync_quality ≡ none
          → has_synced s.timebase ≡ true
          → q.source ≡ Source.holdover
          → q.serve_state ≡ ServeState.holdover
          → Reported q
      by_nothing :
          NoOverride
          → s.last_sync_quality ≡ none
          → has_synced s.timebase ≡ false
          → q.source ≡ Source.unsynced
          → q.serve_state ≡ ServeState.unsynced
          → Reported q

    without_override-Reported :
        (tb : TimeBase) (o : Option SyncQuality)
        → has_synced tb ≡ has_synced s.timebase
        → s.last_sync_quality ≡ o
        → NoOverride
        → Reported (without_override at (record s { timebase = tb }) o)
    unfolding ntp_quality
    without_override-Reported tb (some sq) same e none_set =
        by_sync sq none_set e refl
          (judge-Judged s (is_stale sq) (compute_dispersion_ms F at.at_dispersion sq))
    without_override-Reported tb none same e none_set =
        if_cases Reported (has_synced tb)
          (λ seeded. by_seed none_set e (sym same ∙ seeded) refl refl)
          (λ bare. by_nothing none_set e (sym same ∙ bare) refl refl)

    with_override-Reported :
        (tb : TimeBase) (o : Option ManualOverrideState)
        → has_synced tb ≡ has_synced s.timebase
        → s.override_state ≡ o
        → (is_manual_active at.at_manual s.timebase).1 ≡ true
        → Reported (with_override at (record s { timebase = tb }) o)
    unfolding manual_quality
    with_override-Reported tb (some ov) same e on = by_override ov on e refl refl
    with_override-Reported tb none same e on =
        without_override-Reported tb s.last_sync_quality same refl (inr e)

    still_synced : has_synced (is_manual_active at.at_manual s.timebase).0 ≡ has_synced s.timebase
    unfolding has_synced is_manual_active
    still_synced = ground arith

    -- A time is served as manual while an override is active and described; else, after a sync, as
    -- the age and the uncertainty of the sync say; else as holdover if the time base has a time,
    -- and as unsynced if it has none. A sync is served as `ok` only if it is fresh and certain
    -- enough, as `stopped` only in strict mode and as `holdover` only outside it.
    pub compute_quality-Reported : Reported (compute_quality at s).1
    unfolding compute_quality
    compute_quality-Reported =
        let tb = (is_manual_active at.at_manual s.timebase).0 in
        if_cases Reported (is_manual_active at.at_manual s.timebase).1
          (λ on. with_override-Reported tb s.override_state still_synced refl on)
          (λ off. without_override-Reported tb s.last_sync_quality still_synced refl (inl off))
