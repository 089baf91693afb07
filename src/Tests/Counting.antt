-- ===== src/Tests/Counting.antt =====
-- src/performance.rs at concrete inputs.
use ntp_time_json_api.Common.{◌≤◌, ◌≡◌, refl, min, true, false, List, [], ◌∷◌, arith}
use ntp_time_json_api.Counters.{LockFreeMetrics, Turn, lowered, update_min}
use ntp_time_json_api.Counters.Extremes.{all_others, update_min_result}

abbrev metrics : LockFreeMetrics
metrics = record {
  total_requests = 4;
  success_requests = 3;
  error_requests = 1;
  total_latency_us = 60;
  min_latency_us = 12;
  max_latency_us = 30;
  cache_hits = 2;
}

-- Another thread puts in 11 before the first exchange.
abbrev turns : List Turn
turns =
    record { others = 11 ∷ []; fails = false }
    ∷ record { others = []; fails = false }
    ∷ record { others = []; fails = false }
    ∷ []

update_min_result_example :
    ((update_min 10 turns metrics).1 ≡ true)
    × ((update_min 10 turns metrics).0.min_latency_us ≤ min 10 12)
    × (min 10 (lowered 12 (all_others turns)) ≤ (update_min 10 turns metrics).0.min_latency_us)
update_min_result_example =
    update_min_result 10 turns metrics (refl, (refl, (refl, tt))) (omega arith)
