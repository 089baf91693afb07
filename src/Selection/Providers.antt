-- ===== src/Selection/Providers.antt =====
-- src/ntp/selection.rs: `provider_group`, the operator that a server is taken to belong to.
-- The texts are split as lists of characters.
use Prim.Native.Char.{Char, code}
use text.Mathlib.TextBridge.{to_list, of_list}
use ntp_time_json_api.Common.{
  ℕ, ◌+◌, ◌-◌, ◌*◌, Bool, true, false, ◌&&◌, none, some, List, [], ◌∷◌, ◌++◌, String, leb, ◌==◌,
  if◌then◌else◌,
}
use ntp_time_json_api.Common.Texts.{split, is_digit}
use ntp_time_json_api.Common.Maps.{Entries, lookup}

-- `next()` of the parts.
abbrev pub first_part : List (List Char) → List Char
first_part [] = []
first_part (part ∷ parts) = part

-- `parse::<u16>().is_ok()`: an optional plus sign, then digits up to 65535.
abbrev is_u16_onto : ℕ → List Char → Bool
is_u16_onto n [] = leb n 65535
is_u16_onto n (c ∷ cs) =
    let rest = is_u16_onto (n * 10 + (code c - b'0')) cs in if is_digit c then rest else false

abbrev is_u16_digits : List Char → Bool
is_u16_digits [] = false
is_u16_digits (c ∷ cs) = is_u16_onto 0 (c ∷ cs)

unfoldable pub is_u16 : List Char → Bool
is_u16 [] = false
is_u16 (c ∷ cs) = if code c == b'+' then is_u16_digits cs else is_u16_digits (c ∷ cs)

abbrev pub all_u16 : List (List Char) → Bool
all_u16 [] = true
all_u16 (part ∷ parts) = is_u16 part && all_u16 parts

-- The last two parts with a dot between them, of two parts or more.
abbrev dot : Char
dot = "."

unfoldable pub last_two : List Char → List Char → List (List Char) → List Char
last_two a b [] = a ++ (dot ∷ b)
last_two a b (c ∷ parts) = last_two b c parts

abbrev pub group_of_parts : List Char → List (List Char) → List Char
group_of_parts host [] = host
group_of_parts host (a ∷ []) = host
group_of_parts host (a ∷ b ∷ parts) = if all_u16 (a ∷ b ∷ parts) then host else last_two a b parts

unfoldable pub group_of_host : List Char → List Char
unfolding split is_u16 last_two
group_of_host host = group_of_parts host (split b'.' host)

unfoldable pub provider_group : Entries String → String → String
unfolding group_of_host split
provider_group overrides server = elim (lookup server overrides) [
  | some group ↦ group
  | none ↦ of_list (group_of_host (first_part (split b':' (to_list server))))
]
