-- ===== src/Tests/Records.antt =====
-- src/ntp/stats.rs at concrete inputs.
use ntp_time_json_api.Common.{◌+◌, ◌≡◌, refl, true, false, not, ◌&&◌, none, [], ◌∷◌, leb, arith}
use ntp_time_json_api.Common.Int.{pos, negsuc}
use ntp_time_json_api.Stats.{ServerStats, is_healthy}
use ntp_time_json_api.Stats.Health.{fail_all, is_healthy-fail_all}
use ntp_time_json_api.Stats.Offsets.{record_all, record_all-recent_offsets}

-- One failure so far, and seven offsets.
abbrev stats : ServerStats
stats = record {
  address = "ntp.test:123";
  last_rtt = none;
  last_success = none;
  last_failure = none;
  consecutive_failures = 1;
  total_queries = 8;
  total_failures = 1;
  disabled = false;
  recent_offsets = pos 1 ∷ pos 2 ∷ pos 3 ∷ pos 4 ∷ pos 5 ∷ pos 6 ∷ pos 7 ∷ [];
}

stats-IsHealthy : is_healthy stats ≡ true
unfolding is_healthy
stats-IsHealthy = refl

is_healthy-fail_all_example :
    is_healthy (fail_all 3 (10 ∷ 20 ∷ []) stats) ≡ (is_healthy stats && not (leb 3 (1 + 2)))
is_healthy-fail_all_example = is_healthy-fail_all 3 10 (20 ∷ []) stats (omega arith)

record_all-recent_offsets_example :
    (record_all (pos 8 ∷ negsuc 8 ∷ []) stats).recent_offsets
    ≡ pos 2 ∷ pos 3 ∷ pos 4 ∷ pos 5 ∷ pos 6 ∷ pos 7 ∷ pos 8 ∷ negsuc 8 ∷ []
record_all-recent_offsets_example =
    record_all-recent_offsets (pos 8 ∷ negsuc 8 ∷ []) stats (omega arith)
