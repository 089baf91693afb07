-- ===== src/Config/Environment.antt =====
-- src/config.rs: `Config::from_env`, what the service makes of its environment variables.
-- Socket addresses and floating-point numbers are abstract, so their parsers are arguments, as is
-- the id of the process. The parser of floating-point numbers may give NaN.
use ntp_time_json_api.Common.{
  ℕ, ◌^◌, Bool, true, false, not, ◌||◌, Option, none, some, List, [], ◌∷◌, String, max, ◌==◌,
  if◌then◌else◌, Result, ok, err, ◌>>=◌, ◌>>◌,
}
use ntp_time_json_api.Common.Int.{ℤ, pos}
use ntp_time_json_api.Common.Float.{Float, F64, number}
use ntp_time_json_api.Common.Texts.{lower_is, parse_below, parse_i64, parse_bool}
use ntp_time_json_api.Selection.{SelectionConfig}
use ntp_time_json_api.Config.{
  SocketAddr, accuracy_first, NtpConfig, json, pretty, Config, ConfigError, validate,
}
use ntp_time_json_api.Config.Variables.{
  Env, env_or_default, env_or_parse, resolve_replica_id, server_list, provider_groups_of,
}

pub data LoadError : Type 0 where
  bad_addr servers_empty bad_server_addr bad_strategy : LoadError
  invalid : ConfigError → LoadError

abbrev keepalive : ℕ → Option ℕ
keepalive n = if n == 0 then none else some n

abbrev or_error {ℓ} : {A : Type ℓ} → Option A → LoadError → Result A LoadError
or_error (some a) e = ok a
or_error none e = err e

abbrev pub as_invalid : Result (Unit {0}) ConfigError → Result (Unit {0}) LoadError
as_invalid (ok passed) = ok tt
as_invalid (err e) = err (invalid e)

abbrev ensure_that : Bool → LoadError → Result (Unit {0}) LoadError
ensure_that test e = if test then ok tt else err e

abbrev pub is_nil_list {ℓ} : {A : Type ℓ} → List A → Bool
is_nil_list [] = true
is_nil_list (a ∷ as') = false

module _ (env : Env) where
  abbrev pub addr_text : String
  addr_text = env_or_default env "ADDR" "0.0.0.0:8080"

  abbrev pub server_addr_text : String
  server_addr_text = env_or_default env "NTP_SERVER_ADDR" "0.0.0.0:123"

  abbrev pub servers_of : List String
  servers_of = server_list (
      env_or_default env "NTP_SERVERS"
        "time.google.com:123,time.cloudflare.com:123,pool.ntp.org:123")

  abbrev pub knows_strategy : Bool
  knows_strategy =
      let strategy = env_or_default env "SELECTION_STRATEGY" "rtt_min" in
      lower_is strategy "rtt_min" || lower_is strategy "accuracy_first"

module _ {F : Type 0} ⦃fl : Float F⦄ (parse_f64 : String → Option (F64 F)) (process : String)
    (env : Env) where
  abbrev env_bool : String → Bool → Bool
  env_bool key default = env_or_parse parse_bool env key default

  abbrev env_u64 : String → ℕ → ℕ
  env_u64 key default = env_or_parse (parse_below (2 ^ 64)) env key default

  abbrev env_u32 : String → ℕ → ℕ
  env_u32 key default = env_or_parse (parse_below (2 ^ 32)) env key default

  abbrev env_i64 : String → ℤ → ℤ
  env_i64 key default = env_or_parse parse_i64 env key default

  abbrev env_f64 : String → F → F64 F
  env_f64 key default = env_or_parse parse_f64 env key (number default)

  abbrev float : ℕ → F
  float n = fl.of_int (pos n)

  abbrev selection_of : SelectionConfig F
  selection_of = record {
    max_stratum = env_or_parse (parse_below (2 ^ 8)) env "MAX_STRATUM" 4;
    min_quorum = env_u64 "MIN_QUORUM" 2;
    reject_leap_alarm = env_bool "REJECT_LEAP_ALARM" true;
    max_root_distance_ms = env_f64 "MAX_ROOT_DISTANCE_MS" (float 500);
    max_sample_age_secs = env_u64 "MAX_SAMPLE_AGE_SECS" 60;
    provider_group_max_fraction =
        env_f64 "PROVIDER_GROUP_MAX_FRACTION" (fl.div (float 1) (float 2));
    provider_groups = provider_groups_of (env_or_default env "NTP_PROVIDER_GROUPS" "");
    max_offset_skew_ms = env_i64 "MAX_OFFSET_SKEW_MS" (pos 1000);
    interval_selection_enabled = env_bool "NTP_INTERVAL_SELECTION_ENABLED" true;
  }

  abbrev ntp_of : NtpConfig F
  ntp_of = record {
    servers = servers_of env;
    timeout_secs = env_u64 "NTP_TIMEOUT" 2;
    sync_interval_secs = env_u64 "SYNC_INTERVAL" 30;
    probe_min_interval_secs = env_u64 "PROBE_MIN_INTERVAL" 10;
    probe_max_interval_secs = env_u64 "PROBE_MAX_INTERVAL" 20;
    max_staleness_secs = env_u64 "MAX_STALENESS" 120;
    require_sync = env_bool "REQUIRE_SYNC" true;
    selection_strategy = accuracy_first;
    monotonic_output = env_bool "MONOTONIC_OUTPUT" true;
    offset_bias_ms = env_i64 "OFFSET_BIAS_MS" (pos 0);
    asymmetry_bias_ms = env_i64 "ASYMMETRY_BIAS_MS" (pos 0);
    max_consecutive_failures = env_u32 "MAX_CONSECUTIVE_FAILURES" 10;
    selection = selection_of;
  }

  -- The settings, from the addresses that were parsed.
  unfoldable pub settings_of : SocketAddr → SocketAddr → Config F
  settings_of addr server_addr = record {
    http = record {
      addr = addr;
      request_timeout_secs = env_u64 "REQUEST_TIMEOUT" 5;
      body_limit_bytes = env_u64 "BODY_LIMIT_BYTES" 1024;
      tcp_nodelay = env_bool "TCP_NODELAY" true;
      tcp_keepalive_secs = keepalive (env_u64 "TCP_KEEPALIVE_SECS" 0);
      disable_rate_limiting = env_bool "DISABLE_RATE_LIMITING" false;
    };
    ntp = ntp_of;
    ntp_server = record {
      enabled = env_bool "NTP_SERVER_ENABLED" false;
      addr = server_addr;
      max_packet_size = max (env_u64 "NTP_SERVER_MAX_PACKET_SIZE" 1024) 48;
      max_root_dispersion_ms = env_u64 "NTP_SERVER_MAX_ROOT_DISPERSION_MS" 16_000;
    };
    quality = record {
      strict_sla_mode = env_bool "STRICT_SLA_MODE" false;
      allow_degraded = env_bool "ALLOW_DEGRADED" false;
      serve_ok_max_uncertainty_ms = env_f64 "SERVE_OK_MAX_UNCERTAINTY_MS" (float 50);
      serve_degraded_max_uncertainty_ms = env_f64 "SERVE_DEGRADED_MAX_UNCERTAINTY_MS" (float 250);
      readiness_max_uncertainty_ms = env_f64 "READINESS_MAX_UNCERTAINTY_MS" (float 250);
    };
    persist = record {
      enabled = env_bool "TIME_STATE_PERSIST_ENABLED" false;
      file_path = env_or_default env "TIME_STATE_FILE" "/var/lib/ntp-time-json-api/state.json";
    };
    ws = record {
      update_interval_ms = max (env_u64 "WS_UPDATE_INTERVAL_MS" 1000) 1;
      max_duration_secs = env_u64 "WS_MAX_DURATION_SECS" 3600;
    };
    logging = record {
      level = env_or_default env "LOG_LEVEL" "info";
      format = if lower_is (env_or_default env "LOG_FORMAT" "json") "pretty" then pretty else json;
    };
    messages = record {
      ok = env_or_default env "MSG_OK" "done";
      ok_cache = env_or_default env "MSG_OK_CACHE" "done";
      error = env_or_default env "MSG_ERROR" "error";
      error_no_sync =
          env_or_default env "ERROR_TEXT_NO_SYNC" "Service not yet synchronized with NTP";
      error_internal = env_or_default env "ERROR_TEXT_INTERNAL" "Internal server error";
      error_timeout = env_or_default env "ERROR_TEXT_TIMEOUT" "Request timeout";
    };
    admin = record {
      enabled = env_bool "ADMIN_API_ENABLED" false;
      token = env_or_default env "ADMIN_API_TOKEN" "";
      max_ttl_secs = env_u32 "MANUAL_OVERRIDE_MAX_TTL_SECS" 300;
      max_jump_ms = env_u64 "MANUAL_OVERRIDE_MAX_JUMP_MS" 5000;
      allow_force = env_bool "MANUAL_OVERRIDE_ALLOW_FORCE" false;
      dispersion_ms = env_u64 "MANUAL_OVERRIDE_DISPERSION_MS" 1000;
    };
    replica = record { replica_id = resolve_replica_id env process };
  }

  unfoldable pub from_env : (String → Option SocketAddr) → Result (Config F) LoadError
  unfolding settings_of
  from_env parse_addr = do
    addr ← or_error (parse_addr (addr_text env)) bad_addr
    ensure_that (not (is_nil_list (servers_of env))) servers_empty
    server_addr ← or_error (parse_addr (server_addr_text env)) bad_server_addr
    ensure_that (knows_strategy env) bad_strategy
    as_invalid (validate (settings_of addr server_addr))
    ok (settings_of addr server_addr)
