-- ===== src/Admin/Accepting.antt =====
-- src/http/handlers_admin.rs: which overrides are accepted, and what an accepted one leaves.
use ntp_time_json_api.Common.{
  ◌≤◌, ◌<◌, ◌^◌, ◌≡◌, refl, sym, subst, ◌⊎◌, inl, inr, Bool, true, false, Option, some, Result, ok,
  err, arith,
}
use ntp_time_json_api.Common.Int.{ℤ, ◌-ℤ◌}
use ntp_time_json_api.TimeBase
use ntp_time_json_api.Samples.{Instant}
use ntp_time_json_api.TimeBase.{
  TimeBase, is_manual_active, has_synced, set_manual, clear_manual, now_ms, ntp_base_now_ms,
}
use ntp_time_json_api.State.{AppState, ManualOverrideState}
use ntp_time_json_api.Overrides.{
  SetOverrideRequest, PostReadings, Refusal, force_not_allowed, empty_reason, invalid_ttl,
  jump_too_large, Reply, refused, inactive, is_blank, is_true, check_request, check_jump,
  reply_status, is_some,
}
use ntp_time_json_api.Admin.{
  Service, seeded, set_time, publish, ExpiryTask, run_task, activate, on_jump, on_request,
  post_override, get_override,
}
use ntp_time_json_api.Overrides.Checked.{
  Within, JumpWithin, IsSmall, IsSmallTime, Checked, check_request-Checked, JumpChecked,
  check_jump-JumpChecked,
}

-- An accepted override is described and is in the time base, which has a time from then on.
pub record IsActivated {F : Type 0} (body : SetOverrideRequest) (v : Service F) : Type 0 where
  pub described :
      (ov : ManualOverrideState) × (v.app.override_state ≡ some ov) × (ov.epoch_ms ≡ body.epoch_ms)
  pub is_active : v.app.timebase.manual_active ≡ true
  pub runs_from : v.app.timebase.manual_base_epoch_ms ≡ body.epoch_ms
  pub has_time : has_synced v.app.timebase ≡ true

seeded_has_time :
    {F : Type 0} (at : PostReadings) (body : SetOverrideRequest) (s : AppState F) (tb : TimeBase)
    → has_synced (seeded at body s tb) ≡ true
unfolding seeded has_synced TimeBase.update
seeded_has_time at body s tb = ground arith

activate-IsActivated :
    {F : Type 0} (at : PostReadings) (body : SetOverrideRequest) (v : Service F)
    → IsActivated body (activate at body v).0
unfolding activate set_manual has_synced
activate-IsActivated at body v =
    let tb = (ntp_base_now_ms at.at_jump (now_ms at.at_set v.app.timebase).0).0 in
    record {
      described = (_, refl, refl);
      is_active = refl;
      runs_from = refl;
      has_time = seeded_has_time at body v.app tb;
    }

module _ {F : Type 0} (at : PostReadings) (body : SetOverrideRequest) (v : Service F) where
  -- The time without the override when the jump is checked.
  abbrev pub ntp_now : Option ℤ
  ntp_now = (ntp_base_now_ms at.at_check v.app.timebase).1

  -- What a request comes to.
  pub data Handled : Service F × Reply → Type 0 where
    accepts :
        (v' : Service F) (reply : Reply)
        → reply_status reply ≡ 200
        → is_blank body.reason ≡ false
        → 0 < body.ttl_seconds
        → body.ttl_seconds ≤ v.app.config.admin.max_ttl_secs
        → ((is_true body.force ≡ true) × (v.app.config.admin.allow_force ≡ true))
          ⊎ ((is_true body.force ≡ false) × JumpWithin body v.app.config.admin.max_jump_ms ntp_now)
        → IsActivated body v'
        → Handled (v', reply)
    rejects_force :
        (v' : Service F)
        → is_true body.force ≡ true
        → v.app.config.admin.allow_force ≡ false
        → v'.app.timebase ≡ v.app.timebase
        → v'.app.override_state ≡ v.app.override_state
        → v'.waiting ≡ v.waiting
        → Handled (v', refused force_not_allowed)
    rejects_reason :
        (v' : Service F)
        → is_blank body.reason ≡ true
        → v'.app.timebase ≡ v.app.timebase
        → v'.app.override_state ≡ v.app.override_state
        → v'.waiting ≡ v.waiting
        → Handled (v', refused empty_reason)
    rejects_ttl :
        (v' : Service F)
        → (body.ttl_seconds ≡ 0) ⊎ (v.app.config.admin.max_ttl_secs < body.ttl_seconds)
        → v'.app.timebase ≡ v.app.timebase
        → v'.app.override_state ≡ v.app.override_state
        → v'.waiting ≡ v.waiting
        → Handled (v', refused (invalid_ttl v.app.config.admin.max_ttl_secs))
    rejects_jump :
        (v' : Service F) (jump max_jump t : ℤ)
        → is_true body.force ≡ false
        → ntp_now ≡ some t
        → (Within (body.epoch_ms -ℤ t) v.app.config.admin.max_jump_ms → ⊥)
        → v'.app.timebase ≡ (ntp_base_now_ms at.at_check v.app.timebase).0
        → v'.app.override_state ≡ v.app.override_state
        → v'.waiting ≡ v.waiting
        → Handled (v', refused (jump_too_large jump max_jump))

  abbrev read : Service F
  read = record v {
    app = record v.app { timebase = (ntp_base_now_ms at.at_check v.app.timebase).0 };
  }

  on_jump-Handled :
      (r : Result (Unit {0}) Refusal)
      → is_blank body.reason ≡ false
      → 0 < body.ttl_seconds
      → body.ttl_seconds ≤ v.app.config.admin.max_ttl_secs
      → is_true body.force ≡ false
      → JumpChecked body v.app.config.admin.max_jump_ms ntp_now r
      → Handled (on_jump at body r read)
  unfolding activate
  on_jump-Handled (ok passed) b p t f j =
      accepts _ _ refl b p t (inr (f, j)) (activate-IsActivated at body read)
  on_jump-Handled (err (jump_too_large jump max_jump)) b p t f j =
      rejects_jump _ jump max_jump j.0 f j.1 j.2 refl refl refl
  on_jump-Handled (err force_not_allowed) b p t f j = absurd (ground (arith, j))
  on_jump-Handled (err empty_reason) b p t f j = absurd (ground (arith, j))
  on_jump-Handled (err (invalid_ttl m)) b p t f j = absurd (ground (arith, j))

  on_request-Handled :
      (r : Result Bool Refusal)
      → IsSmall body.epoch_ms
      → IsSmallTime ntp_now
      → v.app.config.admin.max_jump_ms < 2 ^ 63
      → Checked body v.app r
      → Handled (on_request at body r v)
  unfolding activate
  on_request-Handled (ok true) h k l c =
      accepts _ _ refl c.1 c.2 c.3
        (inl (sym c.0, elim c.4 [ inl e ↦ absurd (ground (arith, e)) | inr allowed ↦ allowed ]))
        (activate-IsActivated at body v)
  on_request-Handled (ok false) h k l c =
      on_jump-Handled (check_jump body v.app.config.admin.max_jump_ms ntp_now) c.1 c.2 c.3 (sym c.0)
        (check_jump-JumpChecked body v.app.config.admin.max_jump_ms ntp_now h k l)
  on_request-Handled (err force_not_allowed) h k l c = rejects_force _ c.0 c.1 refl refl refl
  on_request-Handled (err empty_reason) h k l c = rejects_reason _ c refl refl refl
  on_request-Handled (err (invalid_ttl m)) h k l c = rw c.0 (
      rejects_ttl _ (subst (λ n. (body.ttl_seconds ≡ 0) ⊎ (n < body.ttl_seconds)) c.0 c.1) refl refl
        refl)
  on_request-Handled (err (jump_too_large jump max_jump)) h k l c = absurd (ground (arith, c))

  -- While the epoch and the time are below 2^62 ms and the greatest jump fits into i64: a request is
  -- accepted only with a reason, a time to live in range, and a jump that is forced and may be, or is
  -- in range of the time without the override; then it is described and in the time base, which has
  -- a time from then on. It is refused only for the fault that the reply names, and then the
  -- override, its description and the tasks stay as they were.
  pub post_override-Handled :
      IsSmall body.epoch_ms
      → IsSmallTime ntp_now
      → v.app.config.admin.max_jump_ms < 2 ^ 63
      → Handled (post_override at body v)
  unfolding post_override
  post_override-Handled h k l =
      on_request-Handled (check_request body v.app) h k l (check_request-Checked body v.app)

  -- A task that ends an override, run at its deadline between the two parts of a request that sets
  -- another, ends the new one: the request is answered with 200 and the override described and
  -- counted as active, but GET calls it inactive from then on, and the time that is served is the
  -- time without it.
  pub publish-run_task :
      (t : ExpiryTask) (now age : Instant)
      → let (begun, timing) = set_time at body v in
        let (v', reply) = publish at body timing (run_task t begun) in
        (reply_status reply ≡ 200)
        × (is_some v'.app.override_state ≡ true)
        × (v'.app.metrics.manual_override_active ≡ 1)
        × ((get_override now age v').1 ≡ inactive)
        × ((now_ms now v'.app.timebase).1 ≡ (now_ms now (clear_manual begun.app.timebase)).1)
  unfolding set_time publish run_task clear_manual get_override is_manual_active
  publish-run_task t now age = (refl, refl, refl, refl, refl)
