-- ===== src/Counters.antt =====
-- src/performance.rs: `LockFreeMetrics`, counters that threads update without a lock.
-- A compare-and-swap loop takes turns with the other threads: `Turn` says what they do to the cell
-- before the next exchange, and whether that exchange fails without a reason.
pub mod Extremes
use ntp_time_json_api.Common.{
  ℕ, ◌+◌, Bool, true, false, not, ◌&&◌, List, [], ◌∷◌, ltb, min, max, ◌==◌, if◌then◌else◌, u64,
  u64_max,
}

pub record LockFreeMetrics : Type 0 where
  pub total_requests : ℕ
  pub success_requests : ℕ
  pub error_requests : ℕ
  pub total_latency_us : ℕ
  pub min_latency_us : ℕ
  pub max_latency_us : ℕ
  pub cache_hits : ℕ

unfoldable pub new : LockFreeMetrics
new = record {
  total_requests = 0;
  success_requests = 0;
  error_requests = 0;
  total_latency_us = 0;
  min_latency_us = u64_max;
  max_latency_us = 0;
  cache_hits = 0;
}

-- Before an exchange: the values that the other threads exchange for, and the spurious failure of
-- `compare_exchange_weak`.
pub record Turn : Type 0 where
  pub others : List ℕ
  pub fails : Bool

-- Whether `compare_exchange_weak` stores the new value, on a cell that holds `cell`.
abbrev pub exchanges : ℕ → Bool → ℕ → Bool
exchanges current fails cell = cell == current && not fails

-- What the other threads leave: each of their exchanges lowers the minimum, or raises the maximum.
abbrev pub lowered : ℕ → List ℕ → ℕ
lowered cell [] = cell
lowered cell (v ∷ vs) = lowered (min cell v) vs

abbrev pub raised : ℕ → List ℕ → ℕ
raised cell [] = cell
raised cell (v ∷ vs) = raised (max cell v) vs

-- The loop from the value `current` that was read last: the cell, and whether the loop has ended
-- by the last turn.
unfoldable pub loop_min : (value current cell : ℕ) → List Turn → ℕ × Bool
loop_min value current cell [] = (cell, not (ltb value current))
loop_min value current cell (t ∷ ts) =
    let found = lowered cell t.others in
    let rest = loop_min value found found ts in
    if ltb value current
    then (if exchanges current t.fails found then (value, true) else rest)
    else (cell, true)

unfoldable pub loop_max : (value current cell : ℕ) → List Turn → ℕ × Bool
loop_max value current cell [] = (cell, not (ltb current value))
loop_max value current cell (t ∷ ts) =
    let found = raised cell t.others in
    let rest = loop_max value found found ts in
    if ltb current value
    then (if exchanges current t.fails found then (value, true) else rest)
    else (cell, true)

unfoldable pub update_min : ℕ → List Turn → LockFreeMetrics → LockFreeMetrics × Bool
unfolding loop_min
update_min value turns s =
    let (cell, ended) = loop_min value s.min_latency_us s.min_latency_us turns in
    (record s { min_latency_us = cell }, ended)

unfoldable pub update_max : ℕ → List Turn → LockFreeMetrics → LockFreeMetrics × Bool
unfolding loop_max
update_max value turns s =
    let (cell, ended) = loop_max value s.max_latency_us s.max_latency_us turns in
    (record s { max_latency_us = cell }, ended)

-- The counters of a success, with the turns of both loops.
unfoldable pub record_success : ℕ → List Turn → List Turn → LockFreeMetrics → LockFreeMetrics × Bool
unfolding update_min update_max
record_success latency_us min_turns max_turns s =
    let s = record s {
      total_requests = u64 (s.total_requests + 1);
      success_requests = u64 (s.success_requests + 1);
      total_latency_us = u64 (s.total_latency_us + latency_us);
    } in
    let (s, min_ended) = update_min latency_us min_turns s in
    let (s, max_ended) = update_max latency_us max_turns s in (s, min_ended && max_ended)

unfoldable pub record_error : LockFreeMetrics → LockFreeMetrics
record_error s = record s {
  total_requests = u64 (s.total_requests + 1);
  error_requests = u64 (s.error_requests + 1);
}

unfoldable pub record_cache_hit : LockFreeMetrics → LockFreeMetrics
record_cache_hit s = record s { cache_hits = u64 (s.cache_hits + 1) }

unfoldable pub min_latency_us : LockFreeMetrics → ℕ
min_latency_us s = if s.min_latency_us == u64_max then 0 else s.min_latency_us

unfoldable pub max_latency_us : LockFreeMetrics → ℕ
max_latency_us s = s.max_latency_us
