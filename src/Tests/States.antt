-- ===== src/Tests/States.antt =====
-- src/http/state.rs at concrete inputs.
use ntp_time_json_api.Common.{true, false, some, [], ◌∷◌}
use ntp_time_json_api.Common.Int.{ℤ, pos, negsuc}
use ntp_time_json_api.Common.Float.{int_float, number}
use ntp_time_json_api.Samples.{SyncQuality}
use ntp_time_json_api.TimeBase
use ntp_time_json_api.TimeCache
use ntp_time_json_api.Counters
use ntp_time_json_api.State
use ntp_time_json_api.Config.{Config, accuracy_first, json}
use ntp_time_json_api.Metrics.{Metrics}
use ntp_time_json_api.Tests.Choosing.{config}
use ntp_time_json_api.State.{AppState, QualityReadings, compute_quality}
use ntp_time_json_api.State.Serving.{Reported, compute_quality-Reported}

abbrev pub quality : SyncQuality
quality = record {
  upstream_root_delay_ms = 4;
  upstream_root_dispersion_ms = 5;
  precision_log2 = negsuc 19;
  stratum = 1;
  leap = 0;
  measured_rtt_ms = 20;
  jitter_ms = 2;
  offset_ms = pos 3;
  last_sync_instant = 1_000_000_000;
  selected_server = "ntp.test:123";
}

abbrev pub settings : Config ℤ
settings = record {
  http = record {
    addr = 8080;
    request_timeout_secs = 5;
    body_limit_bytes = 1024;
    tcp_nodelay = true;
    tcp_keepalive_secs = some 60;
    disable_rate_limiting = false;
  };
  ntp = record {
    servers = "ntp.test:123" ∷ [];
    timeout_secs = 2;
    sync_interval_secs = 30;
    probe_min_interval_secs = 10;
    probe_max_interval_secs = 20;
    max_staleness_secs = 120;
    require_sync = true;
    selection_strategy = accuracy_first;
    monotonic_output = true;
    offset_bias_ms = pos 0;
    asymmetry_bias_ms = pos 0;
    max_consecutive_failures = 10;
    selection = record config { min_quorum = 1; provider_group_max_fraction = number (pos 1) };
  };
  ntp_server = record {
    enabled = false;
    addr = 123;
    max_packet_size = 1024;
    max_root_dispersion_ms = 16_000;
  };
  quality = record {
    strict_sla_mode = false;
    allow_degraded = false;
    serve_ok_max_uncertainty_ms = number (pos 50);
    serve_degraded_max_uncertainty_ms = number (pos 500);
    readiness_max_uncertainty_ms = number (pos 250);
  };
  persist = record { enabled = true; file_path = "state.json" };
  ws = record { update_interval_ms = 1000; max_duration_secs = 3600 };
  logging = record { level = "info"; format = json };
  messages = record {
    ok = "done";
    ok_cache = "cached";
    error = "error";
    error_no_sync = "not synced";
    error_internal = "internal";
    error_timeout = "timeout";
  };
  admin = record {
    enabled = true;
    token = "secret";
    max_ttl_secs = 300;
    max_jump_ms = 5000;
    allow_force = false;
    dispersion_ms = 1000;
  };
  replica = record { replica_id = "replica-1" };
}

abbrev pub metrics : Metrics ℤ
metrics = record {
  ntp_sync_total = 0;
  ntp_sync_errors_total = 0;
  ntp_last_sync_timestamp_seconds = pos 0;
  ntp_staleness_seconds = pos 0;
  ntp_offset_seconds = pos 0;
  ntp_rtt_seconds = [];
  ntp_server_up = [];
  ntp_server_rtt_milliseconds = [];
  ntp_consecutive_failures = pos 0;
  time_uncertainty_milliseconds = pos 0;
  time_source_mode = 0;
  time_serve_state = 0;
  ntp_selection_quorum_size = pos 0;
  ntp_selection_falsetickers_total = 0;
  ntp_sample_uncertainty_milliseconds = [];
  ntp_combined_uncertainty_milliseconds = pos 0;
  ntp_selection_rejected_total = [];
  ntp_selection_single_provider = 0;
  ntp_intersection_truechimers = pos 0;
  ntp_intersection_falsetickers_total = 0;
  ntp_intersection_width_milliseconds = pos 0;
  ntp_intersection_failures_total = [];
  ntp_intersection_ambiguous_clusters = pos 0;
  time_replica_offset_milliseconds = [];
  time_replica_uncertainty_milliseconds = [];
  time_replica_serve_state = [];
  time_replica_source_mode = [];
  manual_override_active = 0;
  manual_override_total = 0;
  manual_override_expiry_timestamp_seconds = pos 0;
  manual_override_rejected_total = [];
}

abbrev pub fresh : AppState ℤ
fresh =
    State.new settings (TimeBase.new (some 0) true) metrics (TimeCache.new 0 "done" "cached")
      Counters.new

abbrev pub state : AppState ℤ
state = record fresh { last_sync_quality = some quality; last_sync_time = some 1_000_000_000 }

-- Two hundred seconds after the sync.
abbrev pub late : QualityReadings
late = record {
  at_manual = 201_000_000_000;
  at_override = 201_000_000_000;
  at_dispersion = 201_000_000_000;
  at_age = 201_000_000_000;
}

compute_quality-Reported_example : Reported late state (compute_quality late state).1
compute_quality-Reported_example = compute_quality-Reported late state
