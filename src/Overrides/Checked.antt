-- ===== src/Overrides/Checked.antt =====
-- src/http/handlers_admin.rs: which requests for an override pass the checks.
use ntp_time_json_api.Common.{
  ℕ, ◌≤◌, ◌<◌, ◌^◌, ◌≡◌, refl, ap, ◌∙◌, ◌⊎◌, Bool, true, false, Option, none, some, Result, ok, err,
  if_cases, arith,
}
use ntp_time_json_api.Common.Int.{
  ℤ, pos, pos_part, neg_part, abs_ℤ, ltb_ℤ, abs_i64, wrap_i64, wrap_i64_of_InI64, ◌-i64◌, ◌-ℤ◌,
  -ℤ_parts, pos_or_neg,
}
use ntp_time_json_api.State.{AppState}
use ntp_time_json_api.Overrides.{
  SetOverrideRequest, Refusal, force_not_allowed, empty_reason, invalid_ttl, jump_too_large,
  is_blank, is_true, check_request, check_jump,
}

-- |a| at most `limit`.
abbrev pub Within : ℤ → ℕ → Type 0
Within a limit = (pos_part a ≤ limit) × (neg_part a ≤ limit)

-- The jump from the time that is served without the override.
abbrev pub JumpWithin : SetOverrideRequest → ℕ → Option ℤ → Type 0
JumpWithin body limit none = Unit {0}
JumpWithin body limit (some ntp_now) = Within (body.epoch_ms -ℤ ntp_now) limit

abbrev pub IsSmall : ℤ → Type 0
IsSmall a = (pos_part a < 2 ^ 62) × (neg_part a < 2 ^ 62)

abbrev pub IsSmallTime : Option ℤ → Type 0
IsSmallTime none = Unit {0}
IsSmallTime (some a) = IsSmall a

-- The jump that is checked is the distance, as long as nothing overflows.
jump_exact : (a b : ℤ) → IsSmall a → IsSmall b → abs_i64 (a -i64 b) ≡ pos (abs_ℤ (a -ℤ b))
unfolding abs_i64 ◌-i64◌
jump_exact a b h k =
    let d = a -ℤ b in
    ap (λ (x : ℤ). wrap_i64 (pos (abs_ℤ x)))
      (wrap_i64_of_InI64 d (omega (arith, -ℤ_parts a b, pos_or_neg d)))
    ∙ wrap_i64_of_InI64 (pos (abs_ℤ d)) (omega (arith, -ℤ_parts a b, pos_or_neg d))

module _ {F : Type 0} (body : SetOverrideRequest) (s : AppState F) where
  -- Why a request is refused before the jump is looked at, or what holds where it is not.
  abbrev pub Checked : Result Bool Refusal → Type 0
  Checked (ok force_bypass) =
      (force_bypass ≡ is_true body.force)
      × (is_blank body.reason ≡ false)
      × (0 < body.ttl_seconds)
      × (body.ttl_seconds ≤ s.config.admin.max_ttl_secs)
      × ((force_bypass ≡ false) ⊎ (s.config.admin.allow_force ≡ true))
  Checked (err force_not_allowed) =
      (is_true body.force ≡ true) × (s.config.admin.allow_force ≡ false)
  Checked (err empty_reason) = is_blank body.reason ≡ true
  Checked (err (invalid_ttl max_ttl)) =
      (max_ttl ≡ s.config.admin.max_ttl_secs)
      × ((body.ttl_seconds ≡ 0) ⊎ (max_ttl < body.ttl_seconds))
  Checked (err (jump_too_large jump max_jump)) = true ≡ false

  pub check_request-Checked : Checked (check_request body s)
  unfolding check_request
  check_request-Checked = ground arith

-- What a check of the jump says.
abbrev pub JumpChecked : SetOverrideRequest → ℕ → Option ℤ → Result (Unit {0}) Refusal → Type 0
JumpChecked body limit ntp (ok passed) = JumpWithin body limit ntp
JumpChecked body limit ntp (err (jump_too_large jump max_jump)) =
    (t : ℤ) × (ntp ≡ some t) × (Within (body.epoch_ms -ℤ t) limit → ⊥)
JumpChecked body limit ntp (err _) = true ≡ false

pub check_jump-JumpChecked :
    (body : SetOverrideRequest) (limit : ℕ) (ntp : Option ℤ)
    → IsSmall body.epoch_ms
    → IsSmallTime ntp
    → limit < 2 ^ 63
    → JumpChecked body limit ntp (check_jump body limit ntp)
check_jump-JumpChecked body limit none h k l = tt
check_jump-JumpChecked body limit (some t) h k l =
    let d = body.epoch_ms -ℤ t in
    let jump = jump_exact body.epoch_ms t h k in
    let max_jump = wrap_i64_of_InI64 (pos limit) (omega arith) in
    rw (jump, max_jump)
      (if_cases (JumpChecked body limit (some t)) (ltb_ℤ (pos limit) (pos (abs_ℤ d)))
        (λ far. (t, refl, λ (near : Within d limit). ground (arith, pos_or_neg d, far, near)))
        (λ near. ground (arith, near)))
