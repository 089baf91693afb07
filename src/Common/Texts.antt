-- ===== src/Common/Texts.antt =====
-- What the source uses of the texts of the standard library, over lists of characters.
use Prim.Native.Nat.{ℕ, ◌+◌, ◌-◌, ◌*◌, ◌^◌}
use Prim.Native.Char.{Char, code}
use Prim.Native.String.{String}
use text.Mathlib.TextBridge.{to_list}
use mathlib.Core.Bool.{Bool, true, false, ◌&&◌, ◌||◌}
use mathlib.Core.Option
use mathlib.Core.Option.{Option, none, some}
use mathlib.Core.List.{List, [], ◌∷◌}
use ntp_time_json_api.Common.Tests.{leb, ◌==◌, if◌then◌else◌}
use ntp_time_json_api.Common.Int.{ℤ, pos, neg}
use ntp_time_json_api.Common.Maps.{same_text}

-- `char::is_whitespace`.
abbrev pub is_whitespace : ℕ → Bool
is_whitespace c =
    leb 9 c && leb c 13
    || (c == 32
        || (c == 0x85
            || (c == 0xA0
                || (c == 0x1680
                    || (leb 0x2000 c && leb c 0x200A
                        || (c == 0x2028
                            || (c == 0x2029 || (c == 0x202F || (c == 0x205F || c == 0x3000)))))))))

-- `split(separator)`: the parts between the separators, one at least.
abbrev pub onto_first : Char → List (List Char) → List (List Char)
onto_first c [] = (c ∷ []) ∷ []
onto_first c (part ∷ parts) = (c ∷ part) ∷ parts

unfoldable pub split : ℕ → List Char → List (List Char)
split separator [] = [] ∷ []
split separator (c ∷ cs) =
    let rest = split separator cs in if code c == separator then [] ∷ rest else onto_first c rest

abbrev pub is_nil : List Char → Bool
is_nil [] = true
is_nil (c ∷ cs) = false

-- `trim()`.
abbrev trim_start : List Char → List Char
trim_start [] = []
trim_start (c ∷ cs) = let rest = trim_start cs in if is_whitespace (code c) then rest else c ∷ cs

abbrev trim_end : List Char → List Char
trim_end [] = []
trim_end (c ∷ cs) =
    let rest = trim_end cs in if is_nil rest && is_whitespace (code c) then [] else c ∷ rest

unfoldable pub trim : List Char → List Char
trim cs = trim_end (trim_start cs)

-- `contains(separator)`.
abbrev pub holds : ℕ → List Char → Bool
holds separator [] = false
holds separator (c ∷ cs) = code c == separator || holds separator cs

-- `s.to_lowercase() == t`, for a `t` of ASCII: no other character has `t`'s for its lower case, as
-- long as `t` has no k, the lower case of the Kelvin sign.
abbrev lower : ℕ → ℕ
lower c = if leb b'A' c && leb c b'Z' then c + 32 else c

abbrev pub lower_matches : List Char → List Char → Bool
lower_matches [] [] = true
lower_matches [] (c ∷ cs) = false
lower_matches (b ∷ bs) [] = false
lower_matches (b ∷ bs) (c ∷ cs) = lower (code b) == code c && lower_matches bs cs

unfoldable pub lower_is : String → String → Bool
lower_is s t = lower_matches (to_list s) (to_list t)

-- `parse` of a number in decimal digits, after an optional sign.
abbrev pub is_digit : Char → Bool
is_digit c = leb b'0' (code c) && leb (code c) b'9'

abbrev digits_onto : ℕ → List Char → Option ℕ
digits_onto n [] = some n
digits_onto n (c ∷ cs) =
    let rest = digits_onto (n * 10 + (code c - b'0')) cs in if is_digit c then rest else none

abbrev digits : List Char → Option ℕ
digits [] = none
digits (c ∷ cs) = digits_onto 0 (c ∷ cs)

abbrev up_to : ℕ → Option ℕ → Option ℕ
up_to greatest none = none
up_to greatest (some n) = if leb n greatest then some n else none

abbrev parse_unsigned : ℕ → List Char → Option ℕ
parse_unsigned greatest [] = none
parse_unsigned greatest (c ∷ cs) =
    up_to greatest (if code c == b'+' then digits cs else digits (c ∷ cs))

unfoldable pub parse_below : ℕ → String → Option ℕ
parse_below bound s = parse_unsigned (bound - 1) (to_list s)

abbrev parse_signed : List Char → Option ℤ
parse_signed [] = none
parse_signed (c ∷ cs) =
    if code c == b'-'
    then Option.map neg (up_to (2 ^ 63) (digits cs))
    else Option.map pos (parse_unsigned (2 ^ 63 - 1) (c ∷ cs))

unfoldable pub parse_i64 : String → Option ℤ
parse_i64 s = parse_signed (to_list s)

unfoldable pub parse_bool : String → Option Bool
parse_bool s =
    if same_text s "true" then some true else if same_text s "false" then some false else none
