-- ===== src/Config.antt =====
-- src/config.rs: the settings, and which of them the service starts with.
-- A socket address is one number.
pub mod Validated
pub mod Variables
pub mod Environment
pub mod Loaded
pub mod Defaults
use Prim.Native.String.{len}
use ntp_time_json_api.Common.{
  ℕ, ◌*◌, Bool, not, ◌&&◌, ◌||◌, Option, none, some, List, [], ◌∷◌, String, ltb, leb, max, ◌==◌,
  if◌then◌else◌, length, Result, ok, err, ◌>>=◌, ◌>>◌,
}
use ntp_time_json_api.Common.Int.{ℤ, pos}
use ntp_time_json_api.Common.Float.{Float, F64, number, ◌≤f64◌, ◌<f64◌}
use ntp_time_json_api.Samples.{Duration}
use ntp_time_json_api.Selection.{SelectionConfig}

abbrev pub SocketAddr : Type 0
SocketAddr = ℕ

pub record HttpConfig : Type 0 where
  pub addr : SocketAddr
  pub request_timeout_secs : ℕ  -- u64
  pub body_limit_bytes : ℕ
  pub tcp_nodelay : Bool
  pub tcp_keepalive_secs : Option ℕ
  pub disable_rate_limiting : Bool

pub data SelectionStrategy : Type 0 where
  accuracy_first : SelectionStrategy

pub record NtpConfig (F : Type 0) : Type 0 where
  pub servers : List String
  pub timeout_secs : ℕ  -- u64
  pub sync_interval_secs : ℕ  -- u64
  pub probe_min_interval_secs : ℕ  -- u64
  pub probe_max_interval_secs : ℕ  -- u64
  pub max_staleness_secs : ℕ  -- u64
  pub require_sync : Bool
  pub selection_strategy : SelectionStrategy
  pub monotonic_output : Bool
  pub offset_bias_ms : ℤ  -- i64
  pub asymmetry_bias_ms : ℤ  -- i64
  pub max_consecutive_failures : ℕ  -- u32
  pub selection : SelectionConfig F

pub record NtpServerConfig : Type 0 where
  pub enabled : Bool
  pub addr : SocketAddr
  pub max_packet_size : ℕ
  pub max_root_dispersion_ms : ℕ  -- u64

pub record QualityConfig (F : Type 0) : Type 0 where
  pub strict_sla_mode : Bool
  pub allow_degraded : Bool
  pub serve_ok_max_uncertainty_ms : F64 F
  pub serve_degraded_max_uncertainty_ms : F64 F
  pub readiness_max_uncertainty_ms : F64 F

pub record PersistConfig : Type 0 where
  pub enabled : Bool
  pub file_path : String

pub record WsConfig : Type 0 where
  pub update_interval_ms : ℕ  -- u64
  pub max_duration_secs : ℕ  -- u64

pub data LogFormat : Type 0 where
  json pretty : LogFormat

pub record LoggingConfig : Type 0 where
  pub level : String
  pub format : LogFormat

pub record MessageConfig : Type 0 where
  pub ok : String
  pub ok_cache : String
  pub error : String
  pub error_no_sync : String
  pub error_internal : String
  pub error_timeout : String

pub record AdminConfig : Type 0 where
  pub enabled : Bool
  pub token : String
  pub max_ttl_secs : ℕ  -- u32
  pub max_jump_ms : ℕ  -- u64
  pub allow_force : Bool
  pub dispersion_ms : ℕ  -- u64

pub record ReplicaConfig : Type 0 where
  pub replica_id : String

pub record Config (F : Type 0) : Type 0 where
  pub http : HttpConfig
  pub ntp : NtpConfig F
  pub ntp_server : NtpServerConfig
  pub quality : QualityConfig F
  pub persist : PersistConfig
  pub ws : WsConfig
  pub logging : LoggingConfig
  pub messages : MessageConfig
  pub admin : AdminConfig
  pub replica : ReplicaConfig

-- The text of each refusal.
pub data ConfigError : Type 0 where
  no_servers sync_interval_zero timeout_zero probe_range packet_size root_dispersion_zero :
      ConfigError
  ws_interval_zero ok_uncertainty_not_positive ok_not_below_degraded token_missing : ConfigError
  max_ttl_zero manual_dispersion_zero replica_empty replica_too_long stratum_zero : ConfigError
  quorum_zero root_distance_not_positive sample_age_zero group_fraction : ConfigError

abbrev pub refuse_if : Bool → ConfigError → Result (Unit {0}) ConfigError
refuse_if test e = if test then err e else ok tt

abbrev pub is_empty : String → Bool
is_empty s = len s == 0

unfoldable pub validate_admin : AdminConfig → ReplicaConfig → Result (Unit {0}) ConfigError
validate_admin admin replica = do
  refuse_if (admin.enabled && is_empty admin.token) token_missing
  refuse_if (admin.enabled && admin.max_ttl_secs == 0) max_ttl_zero
  refuse_if (admin.enabled && admin.dispersion_ms == 0) manual_dispersion_zero
  refuse_if (is_empty replica.replica_id) replica_empty
  refuse_if (ltb 128 (len replica.replica_id)) replica_too_long

module _ {F : Type 0} ⦃fl : Float F⦄ where
  abbrev pub zero_float : F
  zero_float = fl.of_int (pos 0)

  unfoldable pub validate_selection : SelectionConfig F → Result (Unit {0}) ConfigError
  validate_selection sel = do
    refuse_if (sel.max_stratum == 0) stratum_zero
    refuse_if (sel.min_quorum == 0) quorum_zero
    refuse_if (sel.max_root_distance_ms ≤f64 number zero_float) root_distance_not_positive
    refuse_if (sel.max_sample_age_secs == 0) sample_age_zero
    refuse_if
        ((sel.provider_group_max_fraction ≤f64 number zero_float)
          || (number (fl.of_int (pos 1)) <f64 sel.provider_group_max_fraction))
        group_fraction

  unfoldable pub validate : Config F → Result (Unit {0}) ConfigError
  validate c = do
    refuse_if (length c.ntp.servers == 0) no_servers
    refuse_if (ltb c.ntp.sync_interval_secs 1) sync_interval_zero
    refuse_if (ltb c.ntp.timeout_secs 1) timeout_zero
    refuse_if (ltb c.ntp.probe_max_interval_secs c.ntp.probe_min_interval_secs) probe_range
    refuse_if (ltb c.ntp_server.max_packet_size 48) packet_size
    refuse_if (c.ntp_server.max_root_dispersion_ms == 0) root_dispersion_zero
    refuse_if (c.ws.update_interval_ms == 0) ws_interval_zero
    refuse_if (c.quality.serve_ok_max_uncertainty_ms ≤f64 number zero_float)
        ok_uncertainty_not_positive
    refuse_if
        (c.quality.serve_degraded_max_uncertainty_ms ≤f64 c.quality.serve_ok_max_uncertainty_ms)
        ok_not_below_degraded
    validate_admin c.admin c.replica
    validate_selection c.ntp.selection

  unfoldable pub sync_interval : Config F → Duration
  sync_interval c = c.ntp.sync_interval_secs * 1_000_000_000

  unfoldable pub request_timeout : Config F → Duration
  request_timeout c = c.http.request_timeout_secs * 1_000_000_000
