-- ===== src/Responses.antt =====
-- src/errors.rs and src/http/handlers.rs: the errors and what a client gets.
-- A response is its status, the quality headers, and the body as the values that the JSON text is
-- made of.
use ntp_time_json_api.Common.Float.{F64}
use ntp_time_json_api.Common.{ℕ, Bool, true, false, Option, none, some, String}
use ntp_time_json_api.Common.Int.{ℤ}
use ntp_time_json_api.State.{Source, ServeState, TimeQuality}

-- The text of an error: the configured one, or the one that names the uncertainty.
pub data ErrorText (F : Type 0) : Type 0 where
  text : String → ErrorText F
  exceeds_threshold : F → ErrorText F

pub data AppError (F : Type 0) : Type 0 where
  not_synced : (message error : String) → AppError F
  serve_stopped : (message : String) → ErrorText F → ServeState → AppError F
  internal : AppError F

-- The headers `x-time-*`, those that are left out as `none`.
pub record QualityHeaders (F : Type 0) : Type 0 where
  pub source : Source
  pub serve_state : ServeState
  pub uncertainty_ms : Option F
  pub stratum : Option ℕ
  pub staleness_ms : Option ℕ
  pub selected_server : Option String

pub data Body (F : Type 0) : Type 0 where
  cached : String → Body F
  time_value : (message : String) (status : ℕ) (epoch_ms : ℤ) → Body F
  failure : (message : String) (status : ℕ) (error : ErrorText F) → Option ServeState → Body F

pub record Response (F : Type 0) : Type 0 where
  pub status : ℕ
  pub headers : Option (QualityHeaders F)
  pub body : Body F

unfoldable pub into_response : {F : Type 0} → AppError F → Response F
into_response (not_synced message error) = record {
  status = 503;
  headers = none;
  body = failure message 503 (text error) none;
}
into_response (serve_stopped message error serve_state) = record {
  status = 503;
  headers = none;
  body = failure message 503 error (some serve_state);
}
into_response internal = record {
  status = 500;
  headers = none;
  body = failure "error" 500 (text "Internal server error") none;
}

abbrev pub is_ok : ServeState → Bool
is_ok ServeState.ok = true
is_ok _ = false

abbrev pub is_stopped : ServeState → Bool
is_stopped ServeState.stopped = true
is_stopped _ = false

-- `/time/full`: the quality comes before the time. The fields that repeat the quality are the
-- quality itself; the name of the server's provider, which is made from it for display, is left out.
pub record FullResponse (F : Type 0) : Type 0 where
  pub status : ℕ
  pub message : String
  pub epoch_ms : ℤ
  pub replica_id : String
  pub quality : TimeQuality F

-- The answers of the probes.
pub data Probe (F : Type 0) : Type 0 where
  ready not_yet_synced startup_in_progress : Probe F
  uncertainty_too_high : (uncertainty_ms : F) (threshold_ms : F64 F) → Probe F

abbrev pub probe_status : {F : Type 0} → Probe F → ℕ
probe_status ready = 200
probe_status _ = 503
