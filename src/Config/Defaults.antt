-- ===== src/Config/Defaults.antt =====
-- src/config.rs: the settings of `Config::default`, and how those of an empty environment differ.
-- The two socket addresses are parsed from constant texts, and are arguments.
use text.Mathlib.TextBridge.{to_list, to_list-of_list}
use Prim.Native.Char.{Char}
use ntp_time_json_api.Common.{
  ◌≡◌, refl, ap, true, false, Option, none, some, List, [], ◌∷◌, ◌∙◌, String,
}
use ntp_time_json_api.Common.Int.{pos}
use ntp_time_json_api.Common.Float.{Float, F64, number}
use ntp_time_json_api.Common.Texts.{split, lower_matches, lower_is}
use ntp_time_json_api.Selection.{SelectionConfig}
use ntp_time_json_api.Config.{SocketAddr, accuracy_first, json, Config}
use ntp_time_json_api.Config.Variables.{
  server_list, add_groups, provider_groups_of, resolve_replica_id,
}
use ntp_time_json_api.Config.Environment.{settings_of}

no_groups : provider_groups_of "" ≡ []
unfolding provider_groups_of split
no_groups = ap (λ l. add_groups (split b',' l) []) (to_list-of_list [])

json_is_not_pretty : lower_is "json" "pretty" ≡ false
unfolding lower_is
json_is_not_pretty =
    let chars : List Char = "j" ∷ "s" ∷ "o" ∷ "n" ∷ [] in
    let others : List Char = "p" ∷ "r" ∷ "e" ∷ "t" ∷ "t" ∷ "y" ∷ [] in
    ap (λ l. lower_matches l (to_list "pretty")) (to_list-of_list chars)
    ∙ ap (lower_matches chars) (to_list-of_list others)

module _ {F : Type 0} ⦃fl : Float F⦄ where
  abbrev pub default_selection : SelectionConfig F
  default_selection = record {
    max_stratum = 4;
    min_quorum = 2;
    reject_leap_alarm = true;
    max_root_distance_ms = number (fl.of_int (pos 500));
    max_sample_age_secs = 60;
    provider_group_max_fraction = number (fl.div (fl.of_int (pos 1)) (fl.of_int (pos 2)));
    provider_groups = [];
    max_offset_skew_ms = pos 1000;
    interval_selection_enabled = true;
  }

  abbrev pub default : (addr server_addr : SocketAddr) (process : String) → Config F
  default addr server_addr process = record {
    http = record {
      addr = addr;
      request_timeout_secs = 5;
      body_limit_bytes = 1024;
      tcp_nodelay = true;
      tcp_keepalive_secs = some 60;
      disable_rate_limiting = false;
    };
    ntp = record {
      servers = "time.google.com:123" ∷ [];
      timeout_secs = 2;
      sync_interval_secs = 30;
      probe_min_interval_secs = 10;
      probe_max_interval_secs = 20;
      max_staleness_secs = 120;
      require_sync = true;
      selection_strategy = accuracy_first;
      monotonic_output = true;
      offset_bias_ms = pos 0;
      asymmetry_bias_ms = pos 0;
      max_consecutive_failures = 10;
      selection = default_selection;
    };
    ntp_server = record {
      enabled = false;
      addr = server_addr;
      max_packet_size = 1024;
      max_root_dispersion_ms = 16_000;
    };
    quality = record {
      strict_sla_mode = false;
      allow_degraded = false;
      serve_ok_max_uncertainty_ms = number (fl.of_int (pos 50));
      serve_degraded_max_uncertainty_ms = number (fl.of_int (pos 250));
      readiness_max_uncertainty_ms = number (fl.of_int (pos 250));
    };
    persist = record { enabled = false; file_path = "/var/lib/ntp-time-json-api/state.json" };
    ws = record { update_interval_ms = 1000; max_duration_secs = 3600 };
    logging = record { level = "info"; format = json };
    messages = record {
      ok = "done";
      ok_cache = "done";
      error = "error";
      error_no_sync = "Service not yet synchronized with NTP";
      error_internal = "Internal server error";
      error_timeout = "Request timeout";
    };
    admin = record {
      enabled = false;
      token = "";
      max_ttl_secs = 300;
      max_jump_ms = 5000;
      allow_force = false;
      dispersion_ms = 1000;
    };
    replica = record { replica_id = process };
  }

  -- Without any variable the settings are those of the default, but for the servers and for the TCP
  -- keepalive, which is off.
  settings_of-default :
      (parse_f64 : String → Option (F64 F)) (process : String) (addr server_addr : SocketAddr)
      → let c = default addr server_addr process in
        settings_of parse_f64 process (λ key. none) addr server_addr ≡ record c {
          http = record c.http { tcp_keepalive_secs = none };
          ntp = record c.ntp {
            servers = server_list "time.google.com:123,time.cloudflare.com:123,pool.ntp.org:123";
          };
        }
  unfolding settings_of resolve_replica_id
  settings_of-default parse_f64 process addr server_addr = rw (no_groups, json_is_not_pretty) refl
