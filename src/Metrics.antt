-- ===== src/Metrics.antt =====
-- src/metrics.rs: the gauges and counters that the HTTP handlers and the sync loop set.
-- A family is the list of its labels with their values, and `get_or_create(label).set(value)` is
-- `insert`. A histogram is the list of what it observed, the newest first: its buckets are the
-- library's. The counters of the UDP server are in Server, and those of HTTP requests are left out.
pub mod Synced
use ntp_time_json_api.Common.{ℕ, ◌+◌, List, [], ◌∷◌, String, if◌then◌else◌, u64}
use ntp_time_json_api.Common.Maps.{Entries, same_text}
use ntp_time_json_api.Common.Int.{ℤ}

-- `get_or_create(label).inc()`.
unfoldable pub inc_label : String → Entries ℕ → Entries ℕ
inc_label label [] = (label, 1) ∷ []
inc_label label ((key, n) ∷ m) =
    if same_text key label then (key, u64 (n + 1)) ∷ m else (key, n) ∷ inc_label label m

pub record Metrics (F : Type 0) : Type 0 where
  pub ntp_sync_total : ℕ
  pub ntp_sync_errors_total : ℕ
  pub ntp_last_sync_timestamp_seconds : ℤ
  pub ntp_staleness_seconds : ℤ
  pub ntp_offset_seconds : F
  pub ntp_rtt_seconds : List F
  pub ntp_server_up : Entries ℕ
  pub ntp_server_rtt_milliseconds : Entries ℤ
  pub ntp_consecutive_failures : ℤ
  pub time_uncertainty_milliseconds : F
  pub time_source_mode : ℕ
  pub time_serve_state : ℕ
  pub ntp_selection_quorum_size : ℤ
  pub ntp_selection_falsetickers_total : ℕ
  pub ntp_sample_uncertainty_milliseconds : Entries F
  pub ntp_combined_uncertainty_milliseconds : F
  pub ntp_selection_rejected_total : Entries ℕ
  pub ntp_selection_single_provider : ℕ
  pub ntp_intersection_truechimers : ℤ
  pub ntp_intersection_falsetickers_total : ℕ
  pub ntp_intersection_width_milliseconds : F
  pub ntp_intersection_failures_total : Entries ℕ
  pub ntp_intersection_ambiguous_clusters : ℤ
  pub time_replica_offset_milliseconds : Entries F
  pub time_replica_uncertainty_milliseconds : Entries F
  pub time_replica_serve_state : Entries ℕ
  pub time_replica_source_mode : Entries ℕ
  pub manual_override_active : ℕ
  pub manual_override_total : ℕ
  pub manual_override_expiry_timestamp_seconds : ℤ
  pub manual_override_rejected_total : Entries ℕ
