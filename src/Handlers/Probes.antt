-- ===== src/Handlers/Probes.antt =====
-- src/http/handlers.rs: what a probe says of the service.
use ntp_time_json_api.Common.{
  ◌≡◌, refl, true, false, Option, none, some, Bool-cases, inl, inr, arith,
}
use ntp_time_json_api.Common.Int.{ℤ}
use ntp_time_json_api.Common.Float.{Float}
use ntp_time_json_api.Samples.{Instant}
use ntp_time_json_api.TimeBase.{TimeBase, now_ms, ntp_path, serve, has_synced}
use ntp_time_json_api.State.{TimeQuality, AppState, QualityReadings, compute_quality}
use ntp_time_json_api.Responses.{ready}
use ntp_time_json_api.Handlers.{
  RequestReadings, respond, serve_known, serve_time, build_time_response,
  build_system_clock_response, time_handler, readyz_handler,
}

-- A time base that was synced has a time at any instant.
synced_has_time : (t : Instant) (tb : TimeBase) → has_synced tb ≡ true → (now_ms t tb).1 ≡ none → ⊥
unfolding has_synced now_ms ntp_path serve
synced_has_time t tb e h = ground arith

module _ {F : Type 0} ⦃fl : Float F⦄ where
  -- Outside strict mode a time is never refused for its quality.
  serve_known_status :
      (at : RequestReadings) (ms : ℤ) (q : TimeQuality F) (s : AppState F)
      → s.config.quality.strict_sla_mode ≡ false
      → (respond (serve_known at ms q s).1).status ≡ 200
  unfolding serve_known build_time_response
  serve_known_status at ms q s lax = rw lax refl

  same_config : (at : QualityReadings) (s : AppState F) → (compute_quality at s).0.config ≡ s.config
  unfolding compute_quality
  same_config at s = refl

  serve_time_status :
      (at : RequestReadings) (o : Option ℤ) (s : AppState F)
      → s.config.quality.strict_sla_mode ≡ false
      → (o ≡ none → s.config.ntp.require_sync ≡ false)
      → (respond (serve_time at o s).1).status ≡ 200
  unfolding serve_time build_system_clock_response
  serve_time_status at none s lax h = rw (h refl) refl
  serve_time_status at (some ms) s lax h =
      serve_known_status at ms (compute_quality at.at_quality s).1
        (compute_quality at.at_quality s).0 (rw (same_config at.at_quality s) lax)

  -- A service that has synced answers `/time` with status 200 outside strict mode.
  pub synced-time_handler :
      (at : RequestReadings) (s : AppState F)
      → s.config.quality.strict_sla_mode ≡ false
      → has_synced s.timebase ≡ true
      → (respond (time_handler at s).1).status ≡ 200
  unfolding time_handler
  synced-time_handler at s lax synced =
      serve_time_status at (now_ms at.at_now s.timebase).1
        (record s { timebase = (now_ms at.at_now s.timebase).0 }) lax
        (λ timeless. absurd (synced_has_time at.at_now s.timebase synced timeless))

  allowed_unsynced :
      (at : QualityReadings) (s : AppState F)
      → (readyz_handler at s).1 ≡ ready
      → has_synced s.timebase ≡ false
      → s.config.ntp.require_sync ≡ false
  unfolding readyz_handler
  allowed_unsynced at s r e = ground arith

  -- Outside strict mode, a service that `/readyz` calls ready answers `/time` with status 200.
  pub readyz_handler-time_handler :
      (probed : QualityReadings) (at : RequestReadings) (s : AppState F)
      → s.config.quality.strict_sla_mode ≡ false
      → (readyz_handler probed s).1 ≡ ready
      → (respond (time_handler at s).1).status ≡ 200
  unfolding time_handler
  readyz_handler-time_handler probed at s lax r = elim (Bool-cases (has_synced s.timebase)) [
    | inl synced ↦ synced-time_handler at s lax synced
    | inr bare ↦
        serve_time_status at (now_ms at.at_now s.timebase).1
          (record s { timebase = (now_ms at.at_now s.timebase).0 }) lax
          (λ timeless. allowed_unsynced probed s r bare)
  ]
