-- ===== src/State.antt =====
-- src/http/state.rs: what the service says of the quality of its time.
-- Each call that reads the clock has its own reading.
pub mod Serving
use ntp_time_json_api.Common.{
  ℕ, ◌+◌, ◌-◌, ◌/◌, Bool, true, false, not, ◌&&◌, Option, none, some, String, ltb, if◌then◌else◌,
  u32, u64,
}
use mathlib.Core.Option
use ntp_time_json_api.Common.Int.{ℤ, pos, leb_ℤ, wrap_i64, div_ℤ, ◌+i64◌, ◌-i64◌}
use ntp_time_json_api.Common.Float.{Float, number, ◌≤f64◌}
use ntp_time_json_api.Samples.{Instant, TimingSource, SyncQuality, as_millis, as_secs}
use ntp_time_json_api.Quality.{compute_dispersion_ms}
use ntp_time_json_api.TimeBase.{TimeBase, has_synced, is_manual_active}
use ntp_time_json_api.Selection.Select.{SelectionDiagnostics}
use ntp_time_json_api.Config.{Config}
use ntp_time_json_api.Metrics.{Metrics}
use ntp_time_json_api.TimeCache.{TimeCache}
use ntp_time_json_api.Counters.{LockFreeMetrics}

pub record ManualOverrideState : Type 0 where
  pub epoch_ms : ℤ  -- i64
  pub set_at_ms : ℤ  -- i64
  pub expires_at_ms : ℤ  -- i64
  pub set_at_instant : Instant
  pub reason : String
  pub operator : Option String
  pub jump_ms : ℤ  -- i64

pub record OverrideInfo : Type 0 where
  pub epoch_ms : ℤ
  pub set_at_ms : ℤ
  pub expires_at_ms : ℤ
  pub reason : String
  pub operator : Option String
  pub jump_ms : ℤ
  pub ttl_remaining_secs : ℤ

-- The texts of `source` and of `serve_state`.
pub data Source : Type 0 where
  manual ntp degraded holdover unsynced : Source

pub data ServeState : Type 0 where
  ok degraded holdover stopped unsynced : ServeState

pub record TimeQuality (F : Type 0) : Type 0 where
  pub source : Source
  pub serve_state : ServeState
  pub uncertainty_ms : Option F
  pub staleness_ms : Option ℕ
  pub stratum : Option ℕ
  pub selected_server : Option String
  pub leap : Option ℕ
  pub override_info : Option OverrideInfo
  pub selection : Option (SelectionDiagnostics F)

pub record NtpTimingSummary : Type 0 where
  pub server : String
  pub t1_client_send_ms : ℤ
  pub t2_server_recv_ms : ℤ
  pub t3_server_send_ms : ℤ
  pub t4_client_recv_ms : ℤ
  pub offset_ms : ℤ
  pub rtt_ms : ℕ
  pub root_delay_ms : ℕ
  pub root_dispersion_ms : ℕ
  pub stratum : ℕ
  pub leap : ℕ
  pub precision_log2 : ℤ
  pub reference_id : ℕ
  pub timing_source : TimingSource

-- A task is known by the order in which it was spawned.
pub record AppState (F : Type 0) : Type 0 where
  pub config : Config F
  pub timebase : TimeBase
  pub metrics : Metrics F
  pub time_cache : TimeCache
  pub perf_metrics : LockFreeMetrics
  pub last_sync_time : Option Instant
  pub consecutive_failures : ℕ  -- u32
  pub last_rtt_ms : ℕ  -- u64
  pub last_ntp_timing : Option NtpTimingSummary
  pub last_sync_quality : Option SyncQuality
  pub last_selection_diagnostics : Option (SelectionDiagnostics F)
  pub override_state : Option ManualOverrideState
  pub override_task : Option ℕ

unfoldable pub new :
    {F : Type 0} → Config F → TimeBase → Metrics F → TimeCache → LockFreeMetrics → AppState F
new config timebase metrics time_cache perf_metrics = record {
  config = config;
  timebase = timebase;
  metrics = metrics;
  time_cache = time_cache;
  perf_metrics = perf_metrics;
  last_sync_time = none;
  consecutive_failures = 0;
  last_rtt_ms = 0;
  last_ntp_timing = none;
  last_sync_quality = none;
  last_selection_diagnostics = none;
  override_state = none;
  override_task = none;
}

pub record QualityReadings : Type 0 where
  pub at_manual : Instant
  pub at_override : Instant
  pub at_dispersion : Instant
  pub at_age : Instant

-- `(ov.expires_at_ms - now_approx_ms).max(0) / 1000`
abbrev ttl_remaining_secs : ManualOverrideState → ℤ → ℤ
ttl_remaining_secs ov age_ms =
    let left = ov.expires_at_ms -i64 (ov.set_at_ms +i64 age_ms) in
    div_ℤ (if leb_ℤ left (pos 0) then pos 0 else left) 1000

abbrev pub age_of : Instant → SyncQuality → ℕ
age_of now q = u64 (as_millis (now - q.last_sync_instant))

module _ {F : Type 0} ⦃fl : Float F⦄ where
  unfoldable pub record_sync_success : Instant → AppState F → AppState F
  record_sync_success now s = record s { last_sync_time = some now; consecutive_failures = 0 }

  unfoldable pub record_sync_failure : AppState F → AppState F
  record_sync_failure s = record s { consecutive_failures = u32 (s.consecutive_failures + 1) }

  unfoldable pub get_staleness_seconds : Instant → AppState F → Option ℕ
  get_staleness_seconds now s = Option.map (λ (t : Instant). as_secs (now - t)) s.last_sync_time

  unfoldable pub manual_quality : Instant → AppState F → ManualOverrideState → TimeQuality F
  manual_quality now s ov =
      let age_ms = as_millis (now - ov.set_at_instant) in
      record {
        source = Source.manual;
        serve_state = ServeState.ok;
        uncertainty_ms = some (fl.of_int (pos s.config.admin.dispersion_ms));
        staleness_ms = some (u64 age_ms);
        stratum = some 2;
        selected_server = none;
        leap = some 0;
        override_info = some (record {
          epoch_ms = ov.epoch_ms;
          set_at_ms = ov.set_at_ms;
          expires_at_ms = ov.expires_at_ms;
          reason = ov.reason;
          operator = ov.operator;
          jump_ms = ov.jump_ms;
          ttl_remaining_secs = ttl_remaining_secs ov (wrap_i64 (pos age_ms));
        });
        selection = none;
      }

  -- The source and the state of a time that was synced.
  unfoldable pub judge : AppState F → Bool → F → Source × ServeState
  judge s is_stale uncertainty_ms =
      if not is_stale && number uncertainty_ms ≤f64 s.config.quality.serve_ok_max_uncertainty_ms
      then (Source.ntp, ServeState.ok)
      else if s.config.quality.strict_sla_mode
      then if (number uncertainty_ms ≤f64 s.config.quality.serve_degraded_max_uncertainty_ms)
          && s.config.quality.allow_degraded
        then (Source.degraded, ServeState.degraded)
        else (Source.degraded, ServeState.stopped)
      else if not is_stale
          && number uncertainty_ms ≤f64 s.config.quality.serve_degraded_max_uncertainty_ms
      then (Source.degraded, ServeState.degraded)
      else (Source.holdover, ServeState.holdover)

  unfoldable pub ntp_quality : QualityReadings → AppState F → SyncQuality → TimeQuality F
  unfolding judge
  ntp_quality at s q =
      let uncertainty_ms = compute_dispersion_ms F at.at_dispersion q in
      let age_ms = age_of at.at_age q in
      let (source, serve_state) =
        judge s (ltb s.config.ntp.max_staleness_secs (age_ms / 1000)) uncertainty_ms in
      record {
        source = source;
        serve_state = serve_state;
        uncertainty_ms = some uncertainty_ms;
        staleness_ms = some age_ms;
        stratum = some q.stratum;
        selected_server = some q.selected_server;
        leap = some q.leap;
        override_info = none;
        selection = s.last_selection_diagnostics;
      }

  abbrev bare_quality : Source → ServeState → AppState F → TimeQuality F
  bare_quality source serve_state s = record {
    source = source;
    serve_state = serve_state;
    uncertainty_ms = none;
    staleness_ms = none;
    stratum = none;
    selected_server = none;
    leap = none;
    override_info = none;
    selection = s.last_selection_diagnostics;
  }

  abbrev pub without_override : QualityReadings → AppState F → Option SyncQuality → TimeQuality F
  without_override at s (some q) = ntp_quality at s q
  without_override at s none =
      if has_synced s.timebase
      then bare_quality Source.holdover ServeState.holdover s
      else bare_quality Source.unsynced ServeState.unsynced s

  abbrev pub with_override :
      QualityReadings → AppState F → Option ManualOverrideState → TimeQuality F
  with_override at s (some ov) = manual_quality at.at_override s ov
  with_override at s none = without_override at s s.last_sync_quality

  unfoldable pub compute_quality : QualityReadings → AppState F → AppState F × TimeQuality F
  unfolding manual_quality ntp_quality
  compute_quality at s =
      let (timebase, active) = is_manual_active at.at_manual s.timebase in
      let s = record s { timebase = timebase } in
      (
        s,
        if active
            then with_override at s s.override_state
            else without_override at s s.last_sync_quality,
      )
