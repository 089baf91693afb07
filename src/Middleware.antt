-- ===== src/Middleware.antt =====
-- src/http/middleware.rs: the check of the token before a request for the override is handled.
-- The header is the text of `Authorization`, none where it is missing or no text. The comparison in
-- constant time is that of the `subtle` crate, which tells whether two texts of one length are equal.
pub mod Guarded
use Prim.Native.Char.{Char, code}
use Prim.Native.String.{len}
use text.Mathlib.TextBridge.{to_list, of_list}
use mathlib.Core.Option.{get_or}
use ntp_time_json_api.Common.{
  Bool, true, false, Option, none, some, List, [], ◌∷◌, String, ◌==◌, if◌then◌else◌,
}
use ntp_time_json_api.Common.Maps.{same_text}
use ntp_time_json_api.Admin.{Service}

unfoldable pub strip_prefix : List Char → List Char → Option (List Char)
strip_prefix [] s = some s
strip_prefix (c ∷ p) [] = none
strip_prefix (c ∷ p) (d ∷ s) =
    let rest = strip_prefix p s in if code c == code d then rest else none

abbrev pub bearer : List Char
bearer = "B" ∷ "e" ∷ "a" ∷ "r" ∷ "e" ∷ "r" ∷ " " ∷ []

-- What follows `Bearer ` in the header.
abbrev pub provided_of : Option String → List Char
provided_of none = []
provided_of (some s) = get_or (strip_prefix bearer (to_list s)) []

abbrev pub is_valid : String → String → Bool
is_valid expected provided =
    if len expected == len provided then same_text expected provided else false

-- The answer is that of the handler, or status 401.
pub data Answer (R : Type 0) : Type 0 where
  unauthorized : Answer R
  handled : R → Answer R

module _ {F : Type 0} {R : Type 0} where
  abbrev pub pass : Service F × R → Service F × Answer R
  pass (v, reply) = (v, handled reply)

  unfoldable pub require_admin_auth :
      Option String → (Service F → Service F × R) → Service F → Service F × Answer R
  unfolding strip_prefix
  require_admin_auth header next v =
      if is_valid v.app.config.admin.token (of_list (provided_of header))
      then pass (next v)
      else (v, unauthorized)
