-- ===== src/Samples.antt =====
-- The records that pass between the parts: src/ntp/selection.rs (TimingSource, NtpResult),
-- src/ntp/sync.rs (SyncResult, SyncQuality) and src/ntp/client.rs (NtpSample).
-- An `Instant` is a reading of the monotonic clock in nanoseconds, a `Duration` a number of
-- nanoseconds; a server is the text of its address.
use ntp_time_json_api.Common.{ℕ, ◌/◌, String}
use ntp_time_json_api.Common.Int.{ℤ}

abbrev pub Instant : Type 0
Instant = ℕ

abbrev pub Duration : Type 0
Duration = ℕ

abbrev pub as_millis : Duration → ℕ
as_millis d = d / 1_000_000

abbrev pub as_secs : Duration → ℕ
as_secs d = d / 1_000_000_000

pub data TimingSource : Type 0 where
  measured estimated : TimingSource

pub record NtpSample : Type 0 where
  pub server : String
  pub t1_unix_ms : ℤ
  pub t2_unix_ms : ℤ
  pub t3_unix_ms : ℤ
  pub t4_unix_ms : ℤ
  pub t1_instant : Instant
  pub t4_instant : Instant
  pub offset_ms : ℤ
  pub delay_ms : ℤ
  pub root_delay_ms : ℕ
  pub root_dispersion_ms : ℕ
  pub precision_log2 : ℤ
  pub stratum : ℕ
  pub leap : ℕ
  pub reference_id : ℕ
  pub poll : ℤ

pub record NtpResult : Type 0 where
  pub server : String
  pub epoch_ms : ℤ
  pub rtt : Duration
  pub offset_ms : ℤ
  pub t1_client_send_ms : ℤ
  pub t2_server_recv_ms : ℤ
  pub t3_server_send_ms : ℤ
  pub t4_client_recv_ms : ℤ
  pub instant : Instant
  pub root_delay_ms : ℕ
  pub root_dispersion_ms : ℕ
  pub stratum : ℕ
  pub leap : ℕ
  pub precision_log2 : ℤ
  pub reference_id : ℕ
  pub timing_source : TimingSource

pub record SyncResult : Type 0 where
  pub epoch_ms : ℤ
  pub server : String
  pub rtt : Duration
  pub instant : Instant
  pub offset_ms : ℤ
  pub t1_client_send_ms : ℤ
  pub t2_server_recv_ms : ℤ
  pub t3_server_send_ms : ℤ
  pub t4_client_recv_ms : ℤ
  pub root_delay_ms : ℕ
  pub root_dispersion_ms : ℕ
  pub stratum : ℕ
  pub leap : ℕ
  pub precision_log2 : ℤ
  pub reference_id : ℕ
  pub timing_source : TimingSource

pub record SyncQuality : Type 0 where
  pub upstream_root_delay_ms : ℕ  -- u32
  pub upstream_root_dispersion_ms : ℕ  -- u32
  pub precision_log2 : ℤ  -- i8
  pub stratum : ℕ  -- u8
  pub leap : ℕ  -- u8
  pub measured_rtt_ms : ℕ  -- u64
  pub jitter_ms : ℕ  -- u64
  pub offset_ms : ℤ  -- i64
  pub last_sync_instant : Instant
  pub selected_server : String
