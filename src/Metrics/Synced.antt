-- ===== src/Metrics/Synced.antt =====
-- src/main.rs: the metrics that a successful round sets.
use ntp_time_json_api.Common.{ℕ, ◌+◌, ◌/◌, List, [], ◌∷◌, String, if◌then◌else◌, u64}
use mathlib.Core.Option.{get_or}
use ntp_time_json_api.Common.Int.{ℤ, pos, negsuc, wrap_i64}
use ntp_time_json_api.Common.Float.{Float}
use ntp_time_json_api.Common.Maps.{Entries, insert}
use ntp_time_json_api.Samples.{SyncResult}
use ntp_time_json_api.Client.{SystemTime}
use ntp_time_json_api.Quality.{as_secs_f64}
use ntp_time_json_api.Selection.{
  RejectedSource, RejectReason, stratum_zero, stratum_too_high, leap_alarm, sample_too_old,
  root_distance_too_high,
}
use ntp_time_json_api.Selection.Select.{SelectionDiagnostics}
use ntp_time_json_api.Metrics.{Metrics, inc_label}
use ntp_time_json_api.Overrides.{mode_of}
use ntp_time_json_api.State.{ServeState, TimeQuality}

-- Whole seconds since the Unix epoch, 0 before it.
abbrev system_time_unix_secs : SystemTime → ℤ
system_time_unix_secs (pos nanos) = pos (nanos / 1_000_000_000)
system_time_unix_secs (negsuc n) = pos 0

abbrev pub state_of : ServeState → ℕ
state_of ServeState.ok = 0
state_of ServeState.degraded = 1
state_of ServeState.stopped = 2
state_of ServeState.unsynced = 3
state_of ServeState.holdover = 4

abbrev reject_label : RejectReason → String
reject_label stratum_zero = "stratum_zero"
reject_label stratum_too_high = "stratum_too_high"
reject_label leap_alarm = "leap_alarm"
reject_label sample_too_old = "sample_too_old"
reject_label root_distance_too_high = "root_distance_too_high"

module _ {F : Type 0} ⦃fl : Float F⦄ where
  abbrev set_lambdas : List (String × F) → Entries F → Entries F
  set_lambdas [] m = m
  set_lambdas ((server, lambda_ms) ∷ ls) m = set_lambdas ls (insert server lambda_ms m)

  abbrev count_rejected : List RejectedSource → Metrics F → Metrics F
  count_rejected [] m = m
  count_rejected (r ∷ rs) m = count_rejected rs (record m {
    ntp_selection_rejected_total = inc_label (reject_label r.reason) m.ntp_selection_rejected_total;
    ntp_selection_falsetickers_total = u64 (m.ntp_selection_falsetickers_total + 1);
  })

  -- The metrics of the sync and of the selection.
  unfoldable pub sync_metrics :
      SystemTime → SyncResult → SelectionDiagnostics F → Metrics F → Metrics F
  sync_metrics system result diag m =
      let ix = diag.intersection in
      let m = record m {
        ntp_last_sync_timestamp_seconds = system_time_unix_secs system;
        ntp_rtt_seconds = as_secs_f64 F result.rtt ∷ m.ntp_rtt_seconds;
        ntp_offset_seconds = fl.div (fl.of_int result.offset_ms) (fl.of_int (pos 1000));
        ntp_consecutive_failures = pos 0;
        ntp_selection_quorum_size = wrap_i64 (pos diag.quorum_size);
        ntp_selection_single_provider = if diag.single_provider then 1 else 0;
        ntp_combined_uncertainty_milliseconds =
            get_or diag.combined_uncertainty_ms m.ntp_combined_uncertainty_milliseconds;
        ntp_sample_uncertainty_milliseconds =
            set_lambdas diag.candidate_lambdas m.ntp_sample_uncertainty_milliseconds;
      } in
      let m = count_rejected diag.rejected_sources m in
      record m {
        ntp_intersection_truechimers = wrap_i64 (pos ix.truechimer_count);
        ntp_intersection_ambiguous_clusters = wrap_i64 (pos ix.competing_cluster_count);
        ntp_intersection_width_milliseconds =
            get_or ix.intersection_width_ms m.ntp_intersection_width_milliseconds;
        ntp_intersection_falsetickers_total =
            u64 (m.ntp_intersection_falsetickers_total + ix.falseticker_count);
      }

  -- The metrics of the quality, the replica's own included.
  unfoldable pub quality_metrics : String → SyncResult → TimeQuality F → Metrics F → Metrics F
  quality_metrics replica result quality m =
      let uncertainty_ms = get_or quality.uncertainty_ms (fl.of_int (pos 0)) in
      record m {
        time_uncertainty_milliseconds = uncertainty_ms;
        time_source_mode = mode_of quality.source;
        time_serve_state = state_of quality.serve_state;
        time_replica_offset_milliseconds =
            insert replica (fl.of_int result.offset_ms) m.time_replica_offset_milliseconds;
        time_replica_uncertainty_milliseconds =
            insert replica uncertainty_ms m.time_replica_uncertainty_milliseconds;
        time_replica_serve_state =
            insert replica (state_of quality.serve_state) m.time_replica_serve_state;
        time_replica_source_mode =
            insert replica (mode_of quality.source) m.time_replica_source_mode;
      }
