-- ===== src/Stats.antt =====
-- src/ntp/stats.rs: what is remembered of each server.
pub mod Health
pub mod Offsets
use ntp_time_json_api.Common.{
  ℕ, ◌+◌, ◌<◌, ◌≤◌, ◌≡◌, Bool, true, false, not, ◌&&◌, Option, none, some, List, [], ◌∷◌, ◌++◌, map,
  String, ltb, leb, if◌then◌else◌, length, drop, u32, u64,
}
use ntp_time_json_api.Common.Int.{ℤ, pos}
use ntp_time_json_api.Common.Float.{Float, sum_float}
use ntp_time_json_api.Samples.{Instant, Duration}

abbrev pub jitter_ring_size : ℕ
jitter_ring_size = 8

pub record ServerStats : Type 0 where
  pub address : String
  pub last_rtt : Option Duration
  pub last_success : Option Instant
  pub last_failure : Option Instant
  pub consecutive_failures : ℕ  -- u32
  pub total_queries : ℕ  -- u64
  pub total_failures : ℕ  -- u64
  pub disabled : Bool
  pub recent_offsets : List ℤ  -- i64, oldest first

unfoldable pub new : String → ServerStats
new address = record {
  address = address;
  last_rtt = none;
  last_success = none;
  last_failure = none;
  consecutive_failures = 0;
  total_queries = 0;
  total_failures = 0;
  disabled = false;
  recent_offsets = [];
}

-- `pop_front` and `push_back` on the ring.
unfoldable pub record_offset : ℤ → ServerStats → ServerStats
record_offset offset_ms s =
    let kept =
      if leb jitter_ring_size (length s.recent_offsets)
      then drop 1 s.recent_offsets
      else s.recent_offsets in
    record s { recent_offsets = kept ++ offset_ms ∷ [] }

-- The population standard deviation of the recent offsets, rounded up.
unfoldable pub jitter_ms : (F : Type 0) ⦃fl : Float F⦄ → ServerStats → ℕ
jitter_ms F ⦃fl⦄ s =
    let n = length s.recent_offsets in
    let samples = map fl.of_int s.recent_offsets in
    let mean = fl.div (sum_float samples) (fl.of_int (pos n)) in
    let squares = map (λ x. let d = fl.sub x mean in fl.mul d d) samples in
    let var = fl.div (sum_float squares) (fl.of_int (pos n)) in
    if ltb n 2 then 0 else fl.to_u64 (fl.ceil (fl.sqrt var))

unfoldable pub record_success : Instant → Duration → ServerStats → ServerStats × Bool
record_success now rtt s = (
  record s {
    last_rtt = some rtt;
    last_success = some now;
    consecutive_failures = 0;
    total_queries = u64 (s.total_queries + 1);
    disabled = false;
  },
  s.disabled,
)

-- The result is true if the call is the one that disables the server.
unfoldable pub record_failure : Instant → ℕ → ServerStats → ServerStats × Bool
record_failure now max_consecutive_failures s =
    let s' = record s {
      last_failure = some now;
      consecutive_failures = u32 (s.consecutive_failures + 1);
      total_queries = u64 (s.total_queries + 1);
      total_failures = u64 (s.total_failures + 1);
    } in
    if leb max_consecutive_failures s'.consecutive_failures && not s'.disabled
    then (record s' { disabled = true }, true)
    else (s', false)

unfoldable pub is_healthy : ServerStats → Bool
is_healthy s = not s.disabled
