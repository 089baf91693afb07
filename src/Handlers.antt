-- ===== src/Handlers.antt =====
-- src/http/handlers.rs: the handlers that tell the time, and the probes.
-- The text of `/time` is that of the cache. Every call that reads a clock has a reading.
pub mod Verdicts
pub mod Probes
use ntp_time_json_api.Common.{
  ℕ, ◌+◌, ◌-◌, ◌/◌, Bool, true, false, not, ◌&&◌, Option, none, some, List, String, if◌then◌else◌,
  Result, ok, err, u64,
}
use mathlib.Core.Option
use ntp_time_json_api.Common.Int.{ℤ, pos}
use ntp_time_json_api.Common.Float.{Float, F64, number, ◌<f64◌}
use ntp_time_json_api.Samples.{Instant}
use ntp_time_json_api.Client.{SystemTime, system_time_unix_ms}
use ntp_time_json_api.TimeBase.{now_ms, has_synced}
use ntp_time_json_api.TimeCache.{update, get_json}
use ntp_time_json_api.Counters.{Turn, record_success, record_error, record_cache_hit}
use ntp_time_json_api.State.{
  Source, ServeState, TimeQuality, AppState, QualityReadings, compute_quality,
}
use ntp_time_json_api.Responses.{
  ErrorText, AppError, QualityHeaders, Body, Response, into_response, is_ok, is_stopped,
  FullResponse, Probe, probe_status, text, exceeds_threshold, not_synced, serve_stopped, internal,
  cached, time_value, failure, ready, not_yet_synced, startup_in_progress, uncertainty_too_high,
}

-- The readings of a request, in the order of the calls, and the turns of its counters.
pub record RequestReadings : Type 0 where
  pub at_now : Instant
  pub at_quality : QualityReadings
  pub at_cache : Instant
  pub system : SystemTime
  pub latency_us : ℕ
  pub min_turns : List Turn
  pub max_turns : List Turn

module _ {F : Type 0} ⦃fl : Float F⦄ where
  abbrev pub headers_of : TimeQuality F → QualityHeaders F
  headers_of quality = record {
    source = quality.source;
    serve_state = quality.serve_state;
    uncertainty_ms = quality.uncertainty_ms;
    stratum = quality.stratum;
    staleness_ms = quality.staleness_ms;
    selected_server = quality.selected_server;
  }

  unfoldable pub build_time_response :
      Instant → ℤ → TimeQuality F → AppState F → AppState F × Response F
  build_time_response now epoch_ms quality s =
      let is_stale = not (is_ok quality.serve_state) in
      let cache = update now epoch_ms is_stale s.time_cache in
      (
        record s { time_cache = cache },
        record {
          status = 200;
          headers = some (headers_of quality);
          body = cached (get_json is_stale cache);
        },
      )

  unfoldable pub build_system_clock_response : SystemTime → TimeQuality F → AppState F → Response F
  build_system_clock_response system quality s = record {
    status = 200;
    headers = some (headers_of quality);
    body = time_value s.config.messages.ok 200 (system_time_unix_ms system);
  }

  -- Whether strict mode refuses a time of this quality.
  abbrev pub refuses : AppState F → TimeQuality F → Bool
  refuses s quality = s.config.quality.strict_sla_mode && is_stopped quality.serve_state

  -- With a time and its quality at hand.
  unfoldable pub serve_known :
      RequestReadings
      → ℤ
      → TimeQuality F
      → AppState F
      → AppState F × Result (Response F) (AppError F)
  unfolding build_time_response
  serve_known at epoch_ms quality s =
      if refuses s quality
      then (
        s,
        err (
            serve_stopped s.config.messages.error
              (exceeds_threshold (Option.get_or quality.uncertainty_ms (fl.of_int (pos 0))))
              ServeState.stopped),
      )
      else (let s = record s { perf_metrics = record_cache_hit s.perf_metrics } in
          let (s, response) = build_time_response at.at_cache epoch_ms quality s in
          (s, ok response))

  unfoldable pub serve_time :
      RequestReadings → Option ℤ → AppState F → AppState F × Result (Response F) (AppError F)
  unfolding serve_known build_system_clock_response
  serve_time at (some epoch_ms) s =
      let (s, quality) = compute_quality at.at_quality s in serve_known at epoch_ms quality s
  serve_time at none s =
      if s.config.ntp.require_sync
      then (s, err (not_synced s.config.messages.error s.config.messages.error_no_sync))
      else (let (s, quality) = compute_quality at.at_quality s in
          (s, ok (build_system_clock_response at.system quality s)))

  abbrev pub count_result :
      RequestReadings → Result (Response F) (AppError F) → AppState F → AppState F
  count_result at (ok response) s = record s {
    perf_metrics = (record_success at.latency_us at.min_turns at.max_turns s.perf_metrics).0;
  }
  count_result at (err e) s = record s { perf_metrics = record_error s.perf_metrics }

  unfoldable pub time_handler :
      RequestReadings → AppState F → AppState F × Result (Response F) (AppError F)
  unfolding serve_time
  time_handler at s =
      let (timebase, now) = now_ms at.at_now s.timebase in
      let (s, result) = serve_time at now (record s { timebase = timebase }) in
      (count_result at result s, result)

  -- What the client gets: an error is turned into its response by the framework.
  abbrev pub respond : Result (Response F) (AppError F) → Response F
  respond (ok response) = response
  respond (err e) = into_response e

  abbrev full : ℕ → String → ℤ → TimeQuality F → AppState F → FullResponse F
  full status message epoch_ms quality s = record {
    status = status;
    message = message;
    epoch_ms = epoch_ms;
    replica_id = s.config.replica.replica_id;
    quality = quality;
  }

  abbrev pub full_time : SystemTime → Option ℤ → TimeQuality F → AppState F → FullResponse F
  full_time system (some ms) quality s =
      if refuses s quality
      then full 503 s.config.messages.error (pos 0) quality s
      else full 200 s.config.messages.ok ms quality s
  full_time system none quality s =
      if s.config.ntp.require_sync
      then full 503 s.config.messages.error (pos 0) quality s
      else full 200 s.config.messages.ok (system_time_unix_ms system) quality s

  unfoldable pub time_full_handler : RequestReadings → AppState F → AppState F × FullResponse F
  time_full_handler at s =
      let (s, quality) = compute_quality at.at_quality s in
      let (timebase, now) = now_ms at.at_now s.timebase in
      let s = record s { timebase = timebase } in (s, full_time at.system now quality s)

  abbrev pub judge_uncertainty : Option F → F64 F → Probe F
  judge_uncertainty none readiness_max = ready
  judge_uncertainty (some u) readiness_max =
      if readiness_max <f64 number u then uncertainty_too_high u readiness_max else ready

  unfoldable pub readyz_handler : QualityReadings → AppState F → AppState F × Probe F
  readyz_handler at s =
      if s.config.ntp.require_sync && not (has_synced s.timebase)
      then (s, not_yet_synced)
      else if has_synced s.timebase
      then (let (s, quality) = compute_quality at s in
          (
            s,
            judge_uncertainty quality.uncertainty_ms s.config.quality.readiness_max_uncertainty_ms,
          ))
      else (s, ready)

  unfoldable pub startupz_handler : AppState F → Probe F
  startupz_handler s =
      if s.config.ntp.require_sync && not (has_synced s.timebase)
      then startup_in_progress
      else ready
