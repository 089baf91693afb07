-- ===== src/Selection.antt =====
-- src/ntp/selection.rs and `SelectionConfig` of src/config.rs: the records of the selection, and
-- the gates that a result has to pass. The clock is read once, `now`; logging is left out.
pub mod Consensus
pub mod Select
pub mod Kept
pub mod Gates
pub mod Accepted
pub mod Inside
pub mod Accounted
pub mod Providers
use ntp_time_json_api.Common.{
  ℕ, ◌-◌, Bool, ◌&&◌, Option, none, List, [], ◌∷◌, String, ltb, ◌==◌, if◌then◌else◌, Result, ok,
  err,
}
use text.Mathlib.Text
use ntp_time_json_api.Common.Int.{ℤ, pos, negsuc}
use ntp_time_json_api.Common.Float.{Float, F64, number, ◌<f64◌}
use ntp_time_json_api.Samples.{Instant, NtpResult, as_millis, as_secs}
use ntp_time_json_api.Quality.{precision_log2_to_ms}
use ntp_time_json_api.Protocol.{li_alarm_unsynchronized}
use ntp_time_json_api.Marzullo.{ScoredResult}

pub record SelectionConfig (F : Type 0) : Type 0 where
  pub max_stratum : ℕ  -- u8
  pub min_quorum : ℕ
  pub reject_leap_alarm : Bool
  pub max_root_distance_ms : F64 F
  pub max_sample_age_secs : ℕ  -- u64
  pub provider_group_max_fraction : F64 F
  pub provider_groups : List (String × String)
  pub max_offset_skew_ms : ℤ  -- i64
  pub interval_selection_enabled : Bool

pub data RejectReason : Type 0 where
  stratum_zero stratum_too_high leap_alarm sample_too_old root_distance_too_high : RejectReason

pub record RejectedSource : Type 0 where
  pub server : String
  pub reason : RejectReason

-- The jitter of each server, by its address.
abbrev pub JitterMap : Type 0
JitterMap = List (String × ℕ)

abbrev pub jitter_of : String → JitterMap → ℕ
jitter_of server [] = 0
jitter_of server ((key, jitter) ∷ m) =
    if text.Mathlib.Text.◌==◌ key server then jitter else jitter_of server m

module _ {F : Type 0} ⦃fl : Float F⦄ where
  -- The root distance of RFC 5905.
  unfoldable pub compute_lambda : Instant → NtpResult → F → F
  compute_lambda now r jitter_ms =
      let age_ms = fl.of_int (pos (as_millis (now - r.instant))) in
      let delay_half_ms = fl.div (fl.of_int (pos (as_millis r.rtt))) (fl.of_int (pos 2)) in
      let precision_ms = fl.abs (precision_log2_to_ms F r.precision_log2) in
      let root = fl.div (fl.of_int (pos r.root_delay_ms)) (fl.of_int (pos 2)) in
      let upstream = fl.add root (fl.of_int (pos r.root_dispersion_ms)) in
      let measured = fl.add (fl.add upstream delay_half_ms) jitter_ms in
      fl.add (fl.add measured precision_ms) (fl.mul (fl.literal 15 (negsuc 5)) age_ms)

  abbrev pub scored : NtpResult → F → ScoredResult F
  scored r lambda_ms = record {
    result = r;
    lambda_ms = lambda_ms;
    weight = fl.div (fl.of_int (pos 1)) (fl.add lambda_ms (fl.of_int (pos 1)));
  }

  -- The hard gates, in their order.
  unfoldable pub gate :
      SelectionConfig F → Instant → JitterMap → NtpResult → Result (ScoredResult F) RejectReason
  gate config now jitters r =
      let lambda_ms = compute_lambda now r (fl.of_int (pos (jitter_of r.server jitters))) in
      if r.stratum == 0
      then err stratum_zero
      else if ltb config.max_stratum r.stratum
      then err stratum_too_high
      else if config.reject_leap_alarm && r.leap == li_alarm_unsynchronized
      then err leap_alarm
      else if ltb config.max_sample_age_secs (as_secs (now - r.instant))
      then err sample_too_old
      else if config.max_root_distance_ms <f64 number lambda_ms
      then err root_distance_too_high
      else ok (scored r lambda_ms)

  -- A result that was let through goes to the candidates, and any other to the rejected.
  abbrev pub sort_out :
      String
      → Result (ScoredResult F) RejectReason
      → List (ScoredResult F) × List RejectedSource
      → List (ScoredResult F) × List RejectedSource
  sort_out server (ok c) (candidates, rejected) = (c ∷ candidates, rejected)
  sort_out server (err e) (candidates, rejected) =
      (candidates, record { server = server; reason = e } ∷ rejected)

  unfoldable pub gather :
      SelectionConfig F
      → Instant
      → JitterMap
      → List NtpResult
      → List (ScoredResult F) × List RejectedSource
  gather config now jitters [] = ([], [])
  gather config now jitters (r ∷ rs) =
      sort_out r.server (gate config now jitters r) (gather config now jitters rs)
