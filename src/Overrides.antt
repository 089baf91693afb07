-- ===== src/Overrides.antt =====
-- src/http/handlers_admin.rs: what a request for an override says, how it is checked and answered.
pub mod Checked
use Prim.Native.Char.{Char, code}
use text.Mathlib.TextBridge.{to_list}
use ntp_time_json_api.Common.{
  ℕ, suc, ◌+◌, ◌-◌, ◌*◌, Bool, true, false, not, ◌&&◌, ◌||◌, Option, none, some, List, [], ◌∷◌,
  String, ltb, leb, ◌==◌, if◌then◌else◌, keep, u32, u64, Result, ok, err, ◌>>=◌, ◌>>◌,
}
use mathlib.Core.Option
use mathlib.Core.Option.{get_or}
use ntp_time_json_api.Common.Texts.{is_whitespace}
use ntp_time_json_api.Common.Int.{
  ℤ, pos, negsuc, ltb_ℤ, leb_ℤ, wrap_i64, div_ℤ, abs_i64, ◌+i64◌, ◌-i64◌,
}
use ntp_time_json_api.Common.Float.{Float}
use ntp_time_json_api.Samples.{Instant, SyncResult, as_millis, estimated}
use ntp_time_json_api.Client.{SystemTime, system_time_unix_ms}
use ntp_time_json_api.Server.{reference_id_manual}
use ntp_time_json_api.TimeBase
use ntp_time_json_api.TimeBase.{
  TimeBase, now_ms, has_synced, is_manual_active, ntp_base_now_ms, set_manual, clear_manual,
}
use ntp_time_json_api.Metrics.{Metrics, inc_label}
use ntp_time_json_api.State.{
  ManualOverrideState, OverrideInfo, Source, AppState, QualityReadings, compute_quality,
}

pub record SetOverrideRequest : Type 0 where
  pub epoch_ms : ℤ  -- i64
  pub reason : String
  pub ttl_seconds : ℕ  -- u32
  pub operator : Option String
  pub force : Option Bool

-- Why a request is refused, with the values that its message names.
pub data Refusal : Type 0 where
  force_not_allowed empty_reason : Refusal
  invalid_ttl : (max_ttl : ℕ) → Refusal
  jump_too_large : (jump max_jump : ℤ) → Refusal

abbrev pub label_of : Refusal → String
label_of force_not_allowed = "force_not_allowed"
label_of empty_reason = "empty_reason"
label_of (invalid_ttl max_ttl) = "invalid_ttl"
label_of (jump_too_large jump max_jump) = "jump_too_large"

abbrev pub status_of : Refusal → ℕ
status_of (jump_too_large jump max_jump) = 422
status_of _ = 400

pub data Reply : Type 0 where
  refused : Refusal → Reply
  is_set : OverrideInfo → Reply
  active : OverrideInfo → Reply
  inactive cleared no_active_override : Reply

abbrev pub reply_status : Reply → ℕ
reply_status (refused r) = status_of r
reply_status _ = 200

-- `trim().is_empty()`.
abbrev all_blank : List Char → Bool
all_blank [] = true
all_blank (c ∷ cs) = is_whitespace (code c) && all_blank cs

unfoldable pub is_blank : String → Bool
is_blank reason = all_blank (to_list reason)

abbrev pub is_some : Option ManualOverrideState → Bool
is_some none = false
is_some (some ov) = true

abbrev pub is_true : Option Bool → Bool
is_true (some true) = true
is_true _ = false

-- The readings of a POST, in the order of the calls.
pub record PostReadings : Type 0 where
  pub at_check : Instant
  pub set_at_instant : Instant
  pub at_set : Instant
  pub system : SystemTime
  pub at_jump : Instant
  pub at_seed : Instant
  pub at_manual : Instant

-- `sleep_until` to the end of the time to live.
abbrev pub deadline_of : PostReadings → SetOverrideRequest → Instant
deadline_of at body = at.set_at_instant + body.ttl_seconds * 1_000_000_000

abbrev ensure_not : Bool → Refusal → Result (Unit {0}) Refusal
ensure_not test r = if test then err r else ok tt

-- What a POST computes of the time at which it is handled.
pub record Metadata : Type 0 where
  pub set_at_ms : ℤ  -- i64
  pub expires_at_ms : ℤ  -- i64
  pub jump_ms : ℤ  -- i64

-- The seed that initialises a time base without a time.
abbrev pub seed : PostReadings → SetOverrideRequest → ℕ → SyncResult
seed at body dispersion_ms = record {
  epoch_ms = body.epoch_ms;
  server = "manual";
  rtt = 0;
  instant = at.set_at_instant;
  offset_ms = pos 0;
  t1_client_send_ms = body.epoch_ms;
  t2_server_recv_ms = body.epoch_ms;
  t3_server_send_ms = body.epoch_ms;
  t4_client_recv_ms = body.epoch_ms;
  root_delay_ms = 0;
  root_dispersion_ms = u32 dispersion_ms;
  stratum = 2;
  leap = 0;
  precision_log2 = pos 0;
  reference_id = reference_id_manual;
  timing_source = estimated;
}

-- The mode that `time_source_mode` shows.
abbrev pub mode_of : Source → ℕ
mode_of Source.ntp = 0
mode_of Source.degraded = 1
mode_of Source.unsynced = 2
mode_of Source.manual = 3
mode_of Source.holdover = 4

-- The jump that is checked: none where there is no time yet.
abbrev pub check_jump : SetOverrideRequest → ℕ → Option ℤ → Result (Unit {0}) Refusal
check_jump body max_jump_ms none = ok tt
check_jump body max_jump_ms (some ntp_now) =
    let jump = abs_i64 (body.epoch_ms -i64 ntp_now) in
    let max_jump = wrap_i64 (pos max_jump_ms) in
    ensure_not (ltb_ℤ max_jump jump) (jump_too_large jump max_jump)

-- What GET says of an override, its age read at `age`.
abbrev described : Instant → ManualOverrideState → OverrideInfo
described age ov =
    let now_approx_ms = ov.set_at_ms +i64 wrap_i64 (pos (as_millis (age - ov.set_at_instant))) in
    let left = div_ℤ (ov.expires_at_ms -i64 now_approx_ms) 1000 in
    record {
      epoch_ms = ov.epoch_ms;
      set_at_ms = ov.set_at_ms;
      expires_at_ms = ov.expires_at_ms;
      reason = ov.reason;
      operator = ov.operator;
      jump_ms = ov.jump_ms;
      ttl_remaining_secs = if leb_ℤ left (pos 0) then pos 0 else left;
    }

abbrev pub describe_active : Instant → Option ManualOverrideState → Reply
describe_active age none = inactive
describe_active age (some ov) = active (described age ov)

-- The checks of a POST before the jump, in their order. What they give is `force_bypass`.
unfoldable pub check_request : {F : Type 0} → SetOverrideRequest → AppState F → Result Bool Refusal
check_request body s = do
  ensure_not (is_true body.force && not s.config.admin.allow_force) force_not_allowed
  ensure_not (is_blank body.reason) empty_reason
  ensure_not (body.ttl_seconds == 0 || ltb s.config.admin.max_ttl_secs body.ttl_seconds)
      (invalid_ttl s.config.admin.max_ttl_secs)
  ok (is_true body.force)
