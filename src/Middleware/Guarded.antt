-- ===== src/Middleware/Guarded.antt =====
-- src/http/middleware.rs: who gets through to the handlers of the override.
use Prim.Native.Char.{Char, code}
use Prim.Native.String.{len}
use text.Mathlib.TextEquality.{Char-path, eq_iff}
use text.Mathlib.TextBridge.{to_list, of_list, to_list-of_list, of_list-to_list}
use text.Mathlib.TextEquality.{eq_iff}
use text.Mathlib.TextPositions.{eq_refl}
use mathlib.Core.Option.{get_or}
use ntp_time_json_api.Common.{
  ◌≡◌, ◌≢◌, ◌<◌, refl, sym, ap, ◌∙◌, Bool, true, false, Option, none, some, List, [], ◌∷◌, ◌++◌,
  String, ◌==◌, if_cases, if◌then◌else◌, arith,
}
use ntp_time_json_api.Common.Maps.{same_text}
use ntp_time_json_api.Config.Validated.{IsSoundAdmin}
use ntp_time_json_api.Admin.{Service}
use ntp_time_json_api.Middleware.{
  strip_prefix, bearer, provided_of, is_valid, Answer, unauthorized, pass, require_admin_auth,
}

-- The header that carries a token.
abbrev pub bearer_of : String → String
bearer_of token = of_list (bearer ++ to_list token)

strip_prefix-append : (p s : List Char) → strip_prefix p (p ++ s) ≡ some s
unfolding strip_prefix
strip_prefix-append [] s = refl
strip_prefix-append (c ∷ p) s = ground (arith, strip_prefix-append p s)

strip_step :
    (b : Bool) (r : Option (List Char)) (rest : List Char)
    → (if b then r else none) ≡ some rest
    → (b ≡ true) × (r ≡ some rest)
strip_step true r rest h = (refl, h)
strip_step false r rest h = absurd (ground (arith, h))

strip_prefix-some : (p s rest : List Char) → strip_prefix p s ≡ some rest → s ≡ p ++ rest
unfolding strip_prefix
strip_prefix-some [] s rest h = ground (arith, h)
strip_prefix-some (c ∷ p) [] rest h = absurd (ground (arith, h))
strip_prefix-some (c ∷ p) (d ∷ s) rest h =
    let (same, found) = strip_step (code c == code d) (strip_prefix p s) rest h in
    let same_char : c ≡ d = Char-path c d (ground (arith, same)) in
    rw (same_char, strip_prefix-some p s rest found) refl

true_of_if : (b c : Bool) → (if b then c else false) ≡ true → c ≡ true
true_of_if true c h = h
true_of_if false c h = absurd (ground (arith, h))

is_valid_refl : (token : String) → is_valid token token ≡ true
is_valid_refl token =
    if_cases (λ b. b ≡ true) (len token == len token) (λ e. eq_refl token)
      (λ e. absurd (ground (arith, e)))

same_of_is_valid :
    (expected provided : String) → is_valid expected provided ≡ true → expected ≡ provided
same_of_is_valid expected provided h =
    (eq_iff expected provided).0
      (true_of_if (len expected == len provided) (same_text expected provided) h)

-- A text of some length is not what a missing or foreign header provides.
nothing_invalid : (token : String) → 0 < len token → is_valid token "" ≡ true → ⊥
nothing_invalid token positive h =
    let none_left : len token ≡ 0 = ap len (same_of_is_valid token "" h) in
    omega (arith, positive, none_left)

-- With a token that is not empty, only its own header is valid.
valid_text :
    (token s : String) (o : Option (List Char))
    → 0 < len token
    → strip_prefix bearer (to_list s) ≡ o
    → is_valid token (of_list (get_or o [])) ≡ true
    → s ≡ bearer_of token
valid_text token s none positive q h = absurd (nothing_invalid token positive h)
valid_text token s (some rest) positive q h =
    let same : to_list token ≡ rest =
      ap to_list (same_of_is_valid token (of_list rest) h) ∙ to_list-of_list rest in
    sym (of_list-to_list s)
    ∙ ap of_list (strip_prefix-some bearer (to_list s) rest q)
    ∙ ap (λ l. of_list (bearer ++ l)) (sym same)

valid_header :
    (token : String) (header : Option String)
    → 0 < len token
    → is_valid token (of_list (provided_of header)) ≡ true
    → header ≡ some (bearer_of token)
valid_header token none positive h = absurd (nothing_invalid token positive h)
valid_header token (some s) positive h =
    ap some (valid_text token s (strip_prefix bearer (to_list s)) positive refl h)

provided_of-bearer_of : (token : String) → provided_of (some (bearer_of token)) ≡ to_list token
provided_of-bearer_of token =
    ap (λ l. get_or (strip_prefix bearer l) []) (to_list-of_list (bearer ++ to_list token))
    ∙ ap (λ o. get_or o []) (strip_prefix-append bearer (to_list token))

own_header_valid :
    (token : String) → is_valid token (of_list (provided_of (some (bearer_of token)))) ≡ true
own_header_valid token =
    ap (λ l. is_valid token (of_list l)) (provided_of-bearer_of token)
    ∙ ap (is_valid token) (of_list-to_list token)
    ∙ is_valid_refl token

module _ {F : Type 0} {R : Type 0} where
  -- What the check comes to.
  pub data Guards (header : Option String) (next : Service F → Service F × R) (v : Service F)
      : Service F × Answer R → Type 0 where
    admits :
        header ≡ some (bearer_of v.app.config.admin.token) → Guards header next v (pass (next v))
    rejects :
        header ≢ some (bearer_of v.app.config.admin.token) → Guards header next v (v, unauthorized)

  -- With the admin interface on and its settings sound, a request is handled exactly where its header
  -- is `Bearer ` and the token; any other is answered with 401 and changes nothing.
  pub require_admin_auth-Guards :
      (header : Option String) (next : Service F → Service F × R) (v : Service F)
      → v.app.config.admin.enabled ≡ true
      → IsSoundAdmin v.app.config.admin v.app.config.replica
      → Guards header next v (require_admin_auth header next v)
  unfolding require_admin_auth
  require_admin_auth-Guards header next v enabled sound =
      let token = v.app.config.admin.token in
      if_cases (Guards header next v) (is_valid token (of_list (provided_of header)))
        (λ e. admits (valid_header token header (sound.token enabled) e))
        (λ e. rejects (λ own.
          let valid : is_valid token (of_list (provided_of header)) ≡ true =
            ap (λ h. is_valid token (of_list (provided_of h))) own ∙ own_header_valid token in
          ground (arith, valid, e)))
