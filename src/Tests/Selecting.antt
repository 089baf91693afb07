-- ===== src/Tests/Selecting.antt =====
-- src/ntp/selection.rs at concrete inputs.
use ntp_time_json_api.Common.{◌≡◌, refl, List, [], ◌∷◌, arith}
use ntp_time_json_api.Common.Int.{ℤ, pos, negsuc, ◌+ℤ◌, ◌-ℤ◌}
use ntp_time_json_api.Common.Float.{int_float}
use ntp_time_json_api.Samples.{measured}
use ntp_time_json_api.Marzullo.{
  ScoredResult, ok, events, sort_events, insert_event, sweep, sweep_start, sweep_event, close_peak,
  after_sweep, region_result, truechimers, marzullo_filter,
}
use ntp_time_json_api.Marzullo.Quorum.{Answer, marzullo_filter-Answer}

-- A candidate with this offset and root distance.
abbrev pub candidate : ℤ → ℤ → ScoredResult ℤ
candidate offset_ms lambda_ms = record {
  result = record {
    server = "ntp.test:123";
    epoch_ms = pos 5000;
    rtt = 20_000_000;
    offset_ms = offset_ms;
    t1_client_send_ms = pos 0;
    t2_server_recv_ms = pos 0;
    t3_server_send_ms = pos 0;
    t4_client_recv_ms = pos 0;
    instant = 0;
    root_delay_ms = 0;
    root_dispersion_ms = 0;
    stratum = 1;
    leap = 0;
    precision_log2 = negsuc 19;
    reference_id = 0;
    timing_source = measured;
  };
  lambda_ms = lambda_ms;
  weight = pos 1;
}

-- Two that agree, and one far off.
abbrev pub candidates : List (ScoredResult ℤ)
candidates =
    candidate (pos 10) (pos 8) ∷ candidate (pos 500) (pos 9) ∷ candidate (pos 12) (pos 5) ∷ []

-- The first and the third are the truechimers, from 7 to 17.
marzullo_filter_run : marzullo_filter candidates 2 ≡ record {
  state = ok;
  intersection_low_ms = pos 7;
  intersection_high_ms = pos 17;
  truechimer_indices = 0 ∷ 2 ∷ [];
  falseticker_count = 1;
  competing_cluster_count = 1;
}
unfolding marzullo_filter events sort_events insert_event sweep sweep_start sweep_event close_peak
    after_sweep region_result truechimers ◌+ℤ◌ ◌-ℤ◌
marzullo_filter_run = refl

marzullo_filter-Answer_example : Answer candidates 2 (marzullo_filter candidates 2)
marzullo_filter-Answer_example = marzullo_filter-Answer candidates 2 (omega arith)
