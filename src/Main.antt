-- ===== src/Main.antt =====
-- src/main.rs: one turn of the sync loop and of the probe loop, and the state that a start takes from
-- disk. Starting the tasks, the sockets and signals are left out. Each call that reads a clock has a
-- reading of its own.
pub mod Turns
pub mod Keeping
pub mod Overriding
pub mod Serving
pub mod Restart
pub mod Probing
use ntp_time_json_api.Common.{
  ℕ, ◌+◌, ◌-◌, ◌*◌, ◌/◌, ◌%◌, Bool, true, false, Option, none, some, List, [], ◌∷◌, String, ltb,
  if◌then◌else◌, Result, ok, err, u64, u32_max, min,
}
use mathlib.Core.Option
use mathlib.Core.Option.{get_or}
use ntp_time_json_api.Common.Int.{ℤ, pos, negsuc, wrap_i64, saturating_sub_i64, ◌+i64◌, ◌-i64◌}
use ntp_time_json_api.Common.Float.{Float, ◌≤?◌}
use ntp_time_json_api.Common.Maps.{Entries, lookup, insert}
use ntp_time_json_api.Samples.{
  Instant, Duration, SyncResult, SyncQuality, as_millis, as_secs, estimated,
}
use ntp_time_json_api.Client.{SystemTime, system_time_unix_ms}
use ntp_time_json_api.Quality.{as_secs_f64}
use ntp_time_json_api.TimeBase
use ntp_time_json_api.TimeBase.{TimeBase, has_synced}
use ntp_time_json_api.Stats.{ServerStats, is_healthy}
use ntp_time_json_api.Selection.Select.{IntersectionState, SelectionDiagnostics}
use ntp_time_json_api.Selection.Select
use ntp_time_json_api.Config.{NtpConfig}
use ntp_time_json_api.Sync.Round.{SyncOutcome, SyncEnd, selection_panics, fails, succeeds}
use ntp_time_json_api.Metrics.{Metrics, inc_label}
use ntp_time_json_api.Metrics.Synced.{sync_metrics, quality_metrics}
use ntp_time_json_api.Persist.{PersistedState, PersistError, persist_version}
use ntp_time_json_api.State.{
  ServeState, TimeQuality, AppState, NtpTimingSummary, QualityReadings, record_sync_success,
  record_sync_failure, get_staleness_seconds, compute_quality,
}

-- The readings of one turn of the sync loop after its round.
pub record TurnReadings : Type 0 where
  pub at_update : Instant
  pub at_success : Instant
  pub system_sync : SystemTime
  pub at_sync : Instant
  pub at_quality : QualityReadings
  pub system_persist : SystemTime
  pub at_staleness : Instant

abbrev timing_of : SyncResult → ℕ → NtpTimingSummary
timing_of result rtt_ms = record {
  server = result.server;
  t1_client_send_ms = result.t1_client_send_ms;
  t2_server_recv_ms = result.t2_server_recv_ms;
  t3_server_send_ms = result.t3_server_send_ms;
  t4_client_recv_ms = result.t4_client_recv_ms;
  offset_ms = result.offset_ms;
  rtt_ms = rtt_ms;
  root_delay_ms = result.root_delay_ms;
  root_dispersion_ms = result.root_dispersion_ms;
  stratum = result.stratum;
  leap = result.leap;
  precision_log2 = result.precision_log2;
  reference_id = result.reference_id;
  timing_source = result.timing_source;
}

abbrev pub quality_of : Instant → SyncResult → ℕ → SyncQuality
quality_of now result jitter_ms = record {
  upstream_root_delay_ms = result.root_delay_ms;
  upstream_root_dispersion_ms = result.root_dispersion_ms;
  precision_log2 = result.precision_log2;
  stratum = result.stratum;
  leap = result.leap;
  measured_rtt_ms = u64 (as_millis result.rtt);
  jitter_ms = jitter_ms;
  offset_ms = result.offset_ms;
  last_sync_instant = now;
  selected_server = result.server;
}

abbrev pub persisted_of : {F : Type 0} → SystemTime → SyncResult → TimeQuality F → PersistedState F
persisted_of system result quality =
    let now_unix_ms = system_time_unix_ms system in
    record {
      version = persist_version;
      saved_epoch_ms = result.epoch_ms;
      saved_at_unix_ms = now_unix_ms;
      uncertainty_ms = quality.uncertainty_ms;
      source = "ntp";
      selected_server = some result.server;
      selected_provider = none;
      last_successful_ntp_sync_unix_ms = some now_unix_ms;
    }

-- Why the intersection failed, as the metric names it.
abbrev failure_reason : IntersectionState → Option String
failure_reason IntersectionState.no_intersection = some "no_intersection"
failure_reason IntersectionState.insufficient_quorum = some "no_intersection"
failure_reason IntersectionState.ambiguous_cluster = some "ambiguous_cluster"
failure_reason _ = none

abbrev count_failure : Option String → Entries ℕ → Entries ℕ
count_failure none m = m
count_failure (some reason) m = inc_label reason m

module _ {F : Type 0} ⦃fl : Float F⦄ where
  -- A successful round: the new state, and what is to be saved.
  unfoldable pub on_outcome :
      TurnReadings → SyncOutcome F → AppState F → AppState F × Option (PersistedState F)
  on_outcome at outcome s =
      let result = outcome.result in
      let diag = outcome.diagnostics in
      let s = record s { timebase = TimeBase.update at.at_update result s.timebase } in
      let s = record_sync_success at.at_success s in
      let s = record s {
        last_selection_diagnostics = some diag;
        metrics = sync_metrics at.system_sync result diag s.metrics;
        last_rtt_ms = u64 (as_millis result.rtt);
        last_ntp_timing = some (timing_of result (u64 (as_millis result.rtt)));
        last_sync_quality = some (quality_of at.at_sync result outcome.jitter_ms);
      } in
      let (s, quality) = compute_quality at.at_quality s in
      let s = record s {
        metrics = quality_metrics s.config.replica.replica_id result quality s.metrics;
      } in
      (
        s,
        if s.config.persist.enabled
            then some (persisted_of at.system_persist result quality)
            else none,
      )

  -- A round that failed, with the diagnostics that the syncer holds.
  unfoldable pub on_failure : Option (SelectionDiagnostics F) → AppState F → AppState F
  on_failure last_diagnostics s =
      let s = record_sync_failure s in
      let m = record s.metrics {
        ntp_sync_errors_total = u64 (s.metrics.ntp_sync_errors_total + 1);
        ntp_consecutive_failures = pos s.consecutive_failures;
      } in
      elim last_diagnostics [
        | none ↦ record s { metrics = m }
        | some diag ↦ record s {
          metrics = record m {
            ntp_intersection_failures_total =
                count_failure (failure_reason diag.intersection.state)
                  m.ntp_intersection_failures_total;
          };
          last_selection_diagnostics = some diag;
        }
      ]

  abbrev set_staleness : Option ℕ → AppState F → AppState F
  set_staleness none s = s
  set_staleness (some staleness) s = record s {
    metrics = record s.metrics { ntp_staleness_seconds = wrap_i64 (pos staleness) };
  }

  -- One turn of `sync_loop` with the end of its round: what it leaves and what it saves. A panic of
  -- the selection ends the task.
  unfoldable pub sync_turn :
      TurnReadings
      → SyncEnd F
      → Option (SelectionDiagnostics F)
      → AppState F
      → Option (AppState F × Option (PersistedState F))
  unfolding on_outcome on_failure
  sync_turn at end last_diagnostics s =
      let s = record s {
        metrics = record s.metrics { ntp_sync_total = u64 (s.metrics.ntp_sync_total + 1) };
      } in
      elim end [
        | selection_panics ↦ none
        | succeeds outcome ↦
            let (s, to_save) = on_outcome at outcome s in
            some (set_staleness (get_staleness_seconds at.at_staleness s) s, to_save)
        | fails e ↦
            let s = on_failure last_diagnostics s in
            some (set_staleness (get_staleness_seconds at.at_staleness s) s, none)
      ]
