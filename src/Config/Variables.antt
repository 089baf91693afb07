-- ===== src/Config/Variables.antt =====
-- src/config.rs: the environment variables, and the lists that some of them hold.
-- A variable is none where it is not set or not UTF-8. The id of the process is an argument.
use Prim.Native.Char.{Char}
use text.Mathlib.TextBridge.{to_list, of_list}
use mathlib.Core.Option.{get_or}
use ntp_time_json_api.Common.{
  ℕ, not, ◌||◌, Option, none, some, List, [], ◌∷◌, ◌++◌, String, ◌==◌, if◌then◌else◌, keep, map,
}
use ntp_time_json_api.Common.Maps.{Entries, insert}
use ntp_time_json_api.Common.Texts.{split, trim, is_nil, holds}
use ntp_time_json_api.Config.{is_empty}

abbrev pub Env : Type 0
Env = String → Option String

abbrev pub env_or_default : Env → String → String → String
env_or_default env key default = get_or (env key) default

abbrev parsed {ℓ} : {A : Type ℓ} → (String → Option A) → Option String → Option A
parsed parse none = none
parsed parse (some v) = parse v

abbrev pub env_or_parse {ℓ} : {A : Type ℓ} → (String → Option A) → Env → String → A → A
env_or_parse parse env key default = get_or (parsed parse (env key)) default

abbrev not_empty : Option String → Option String
not_empty none = none
not_empty (some s) = if is_empty s then none else some s

abbrev or_else {ℓ} : {A : Type ℓ} → Option A → Option A → Option A
or_else (some a) other = some a
or_else none other = other

-- `replica-<pid>` is the text `process`.
unfoldable pub resolve_replica_id : Env → String → String
resolve_replica_id env process =
    get_or (or_else (not_empty (env "REPLICA_ID")) (not_empty (env "HOSTNAME"))) process

-- `:123`.
abbrev pub ntp_port : List Char
ntp_port = ":" ∷ "1" ∷ "2" ∷ "3" ∷ []

-- A server of the list, with the port of NTP where it has none.
abbrev pub with_port : List Char → List Char
with_port s = if is_nil s || holds b':' s then s else s ++ ntp_port

unfoldable pub server_list : String → List String
server_list servers_str =
    map of_list (
      keep (λ s. not (is_nil s)) (map (λ s. with_port (trim s)) (split b',' (to_list servers_str))))

-- `splitn(2, '=')`: what stands before the first separator, and what after it.
abbrev before : ℕ → List Char → List Char
before separator [] = []
before separator (c ∷ cs) =
    let rest = before separator cs in if Prim.Native.Char.code c == separator then [] else c ∷ rest

abbrev after : ℕ → List Char → List Char
after separator [] = []
after separator (c ∷ cs) =
    let rest = after separator cs in if Prim.Native.Char.code c == separator then cs else rest

abbrev add_group : List Char → Entries String → Entries String
add_group s groups =
    let k = trim (before b'=' s) in
    let v = trim (after b'=' s) in
    if is_nil k || is_nil v then groups else insert (of_list k) (of_list v) groups

abbrev pub add_groups : List (List Char) → Entries String → Entries String
add_groups [] groups = groups
add_groups (s ∷ ss) groups = add_groups ss (if holds b'=' s then add_group s groups else groups)

unfoldable pub provider_groups_of : String → Entries String
provider_groups_of raw = add_groups (split b',' (to_list raw)) []
