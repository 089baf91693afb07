-- ===== src/Tests/Serving.antt =====
-- src/http/websocket.rs, src/http/middleware.rs and src/config.rs at concrete inputs.
use ntp_time_json_api.Overrides.{Reply}
use ntp_time_json_api.Common.{
  ℕ, ◌≡◌, refl, true, ok, if◌then◌else◌, some, none, List, [], ◌∷◌, String, Option, arith,
}
use ntp_time_json_api.Common.Int.{ℤ}
use ntp_time_json_api.Common.Float.{int_float, F64, nan}
use ntp_time_json_api.State
use ntp_time_json_api.State.{AppState}
use ntp_time_json_api.Config.{SocketAddr, validate_selection}
use ntp_time_json_api.Common.Maps.{same_text}
use ntp_time_json_api.Selection.{SelectionConfig}
use ntp_time_json_api.Tests.Choosing.{config}
use ntp_time_json_api.Config.Variables.{Env}
use ntp_time_json_api.Config.Validated.{IsSoundAdmin}
use ntp_time_json_api.Admin.{Service, delete_override}
use ntp_time_json_api.Middleware.{require_admin_auth}
use ntp_time_json_api.Middleware.Guarded.{Guards, require_admin_auth-Guards}
use ntp_time_json_api.WebSocket.{Tick, websocket_connection, compute_max_updates}
use ntp_time_json_api.WebSocket.Streams.{
  Counted, Completed, limit_of, websocket_connection-Counted, websocket_connection-Completed,
}
use ntp_time_json_api.Tests.States.{fresh, late, settings}

abbrev rfc3339 : ℤ → ℕ → Option String
rfc3339 secs nsecs = some "1970-01-01T00:00:00+00:00"

-- A connection of two seconds at most.
abbrev brief : AppState ℤ
brief = record fresh {
  config = record settings { ws = record { update_interval_ms = 1000; max_duration_secs = 2 } };
}

abbrev one_tick : Tick
one_tick = record { at_now = 1_000_000_000; at_quality = late; sends = true }

abbrev ticks : List Tick
ticks = one_tick ∷ one_tick ∷ one_tick ∷ []

websocket_connection-Counted_example :
    Counted (limit_of brief) 0 (websocket_connection rfc3339 true ticks brief)
websocket_connection-Counted_example = websocket_connection-Counted rfc3339 true ticks brief

websocket_connection-Completed_example :
    Completed (limit_of brief) 0 (websocket_connection rfc3339 true ticks brief)
unfolding compute_max_updates
websocket_connection-Completed_example =
    websocket_connection-Completed rfc3339 ticks brief (omega arith) (refl, (refl, (refl, tt)))

abbrev service : Service ℤ
service = record { app = fresh; waiting = []; spawned = 0 }

abbrev clear : Service ℤ → Service ℤ × Reply
clear v = delete_override 1_000_000_000 late v

admin-IsSound : IsSoundAdmin settings.admin settings.replica
admin-IsSound = record {
  token = λ e. omega arith;
  max_ttl = λ e. omega arith;
  dispersion = λ e. omega arith;
  replica_named = omega arith;
  replica_short = omega arith;
}

require_admin_auth-Guards_example :
    Guards
      (some "Bearer secret")
      clear
      service
      (require_admin_auth (some "Bearer secret") clear service)
unfolding State.new
require_admin_auth-Guards_example =
    require_admin_auth-Guards (some "Bearer secret") clear service refl admin-IsSound

abbrev parse_f64 : String → Option (F64 ℤ)
parse_f64 s = if same_text s "NaN" then some nan else none

abbrev parse_addr : String → Option SocketAddr
parse_addr s = some 8080

-- Only the greatest root distance is set, to NaN.
abbrev env : Env
env key = if same_text key "MAX_ROOT_DISTANCE_MS" then some "NaN" else none

-- A greatest root distance that is NaN passes the validation.
abbrev no_limit : SelectionConfig ℤ
no_limit = record config { max_root_distance_ms = nan }

nan-passes : validate_selection no_limit ≡ ok tt
unfolding validate_selection
nan-passes = refl
