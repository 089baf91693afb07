-- ===== src/Sync.antt =====
-- src/ntp/sync.rs: a query turned into a result, and the choice to stay with a server.
-- The client that `query_with_client` asks is injected, so it is an argument.
pub mod Sticky
pub mod Round
pub mod Answers
pub mod Outcome
pub mod Recorded
use ntp_time_json_api.Common.{
  ℕ, ◌-◌, Bool, Option, none, some, List, [], ◌∷◌, String, if◌then◌else◌, Result, ok, err, ◌>>=◌,
}
use text.Mathlib.Text
use ntp_time_json_api.Common.Int.{ℤ, pos, leb_ℤ, wrap_i64, ◌+i64◌, ◌-i64◌}
use ntp_time_json_api.Samples.{NtpSample, NtpResult, Duration, as_millis, measured}

abbrev pub same_server : String → String → Bool
same_server a b = text.Mathlib.Text.◌==◌ a b

abbrev result_of : String → ℤ → ℤ → NtpSample → NtpResult
result_of server offset_bias_ms asymmetry_bias_ms sample = record {
  server = server;
  epoch_ms = ((sample.t4_unix_ms +i64 sample.offset_ms) +i64 offset_bias_ms) +i64 asymmetry_bias_ms;
  rtt = sample.t4_instant - sample.t1_instant;
  offset_ms = sample.offset_ms;
  t1_client_send_ms = sample.t1_unix_ms;
  t2_server_recv_ms = sample.t2_unix_ms;
  t3_server_send_ms = sample.t3_unix_ms;
  t4_client_recv_ms = sample.t4_unix_ms;
  instant = sample.t4_instant;
  root_delay_ms = sample.root_delay_ms;
  root_dispersion_ms = sample.root_dispersion_ms;
  stratum = sample.stratum;
  leap = sample.leap;
  precision_log2 = sample.precision_log2;
  reference_id = sample.reference_id;
  timing_source = measured;
}

unfoldable pub query_with_client {ℓ} :
    {Error : Type ℓ} (query : String → Duration → Result NtpSample Error)
    → String
    → Duration
    → ℤ
    → ℤ
    → Result NtpResult Error
query_with_client query server timeout_duration offset_bias_ms asymmetry_bias_ms = do
  sample ← query server timeout_duration
  ok (result_of server offset_bias_ms asymmetry_bias_ms sample)

-- `iter().find(|r| r.server == current)`.
abbrev pub find_server : String → List NtpResult → Option NtpResult
find_server current [] = none
find_server current (r ∷ rs) =
    if same_server r.server current then some r else find_server current rs

-- `rtt.as_millis() as i64`.
abbrev pub rtt_millis : NtpResult → ℤ
rtt_millis r = wrap_i64 (pos (as_millis r.rtt))

-- With the result of the current server at hand.
abbrev pub stay_or_switch : String → NtpResult → NtpResult → ℤ → NtpResult × Option String
stay_or_switch current current_result best switch_threshold_ms =
    if same_server best.server current
    then (current_result, none)
    else if leb_ℤ switch_threshold_ms (rtt_millis current_result -i64 rtt_millis best)
    then (best, some best.server)
    else (current_result, none)

abbrev pub with_found : String → Option NtpResult → NtpResult → ℤ → NtpResult × Option String
with_found current none best switch_threshold_ms = (best, some best.server)
with_found current (some current_result) best switch_threshold_ms =
    stay_or_switch current current_result best switch_threshold_ms

unfoldable pub sticky_select :
    List NtpResult → NtpResult → Option String → ℤ → NtpResult × Option String
sticky_select agreers best none switch_threshold_ms = (best, some best.server)
sticky_select agreers best (some current) switch_threshold_ms =
    with_found current (find_server current agreers) best switch_threshold_ms
