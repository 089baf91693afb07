-- ===== src/Config/Loaded.antt =====
-- src/config.rs: what `from_env` makes of every environment.
use Prim.Native.Char.{Char}
use text.Mathlib.TextBridge.{to_list}
use ntp_time_json_api.Common.{
  ◌≡◌, true, false, Option, none, some, [], String, All, Result, ok, err,
}
use ntp_time_json_api.Common.Float.{Float, F64}
use ntp_time_json_api.Common.Texts.{holds}
use ntp_time_json_api.Config.{ConfigError, Config, SocketAddr, validate}
use ntp_time_json_api.Config.Validated.{IsSound}
use ntp_time_json_api.Config.Variables.{Env}
use ntp_time_json_api.Config.Environment.{
  LoadError, bad_addr, servers_empty, bad_server_addr, bad_strategy, invalid, addr_text,
  server_addr_text, servers_of, knows_strategy, settings_of,
}

abbrev pub HasPort : String → Type 0
HasPort server = holds b':' (to_list server) ≡ true

module _ {F : Type 0} ⦃fl : Float F⦄ (parse_f64 : String → Option (F64 F)) (process : String)
    (env : Env) (parse_addr : String → Option SocketAddr) where
  -- What an environment comes to.
  pub data Loads : Result (Config F) LoadError → Type 0 where
    loads :
        (c : Config F)
        → IsSound c
        → All HasPort c.ntp.servers
        → parse_addr (addr_text env) ≡ some c.http.addr
        → parse_addr (server_addr_text env) ≡ some c.ntp_server.addr
        → knows_strategy env ≡ true
        → Loads (ok c)
    rejects_addr : parse_addr (addr_text env) ≡ none → Loads (err bad_addr)
    rejects_servers : servers_of env ≡ [] → Loads (err servers_empty)
    rejects_server_addr : parse_addr (server_addr_text env) ≡ none → Loads (err bad_server_addr)
    rejects_strategy : knows_strategy env ≡ false → Loads (err bad_strategy)
    rejects_settings :
        (addr server_addr : SocketAddr) (e : ConfigError)
        → validate (settings_of parse_f64 process env addr server_addr) ≡ err e
        → ¬ IsSound (settings_of parse_f64 process env addr server_addr)
        → Loads (err (invalid e))
