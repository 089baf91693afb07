-- ===== src/Server/Limiter.antt =====
-- src/ntp/server.rs: `UdpRateLimiter`, a fixed window for each source address.
-- The hash map is an association list, each address once; an address is a number. The lock makes
-- each call run alone.
pub mod Entries
pub mod Allowing
pub mod Isolation
pub mod Rate
use ntp_time_json_api.Common.{
  ℕ, ◌+◌, ◌-◌, ◌*◌, Bool, true, false, Option, none, some, List, [], ◌∷◌, ltb, leb, ◌==◌,
  if◌then◌else◌, length, keep, u32, ◌≡◌,
}
use ntp_time_json_api.Samples.{Instant}

abbrev pub Ip : Type 0
Ip = ℕ

-- The pair that the map holds: the requests counted since the window started.
pub record Window : Type 0 where
  pub count : ℕ  -- u32
  pub window_start : Instant

abbrev pub Table : Type 0
Table = List (Ip × Window)

pub record UdpRateLimiter : Type 0 where
  pub map : Table
  pub limit_per_second : ℕ  -- u32

abbrev pub lookup : Ip → Table → Option Window
lookup ip [] = none
lookup ip ((k, w) ∷ m) = if k == ip then some w else lookup ip m

-- What the pattern on `get_mut` assigns to.
abbrev pub assign : Ip → Window → Table → Table
assign ip w [] = []
assign ip w ((k, v) ∷ m) = if k == ip then (k, w) ∷ m else (k, v) ∷ assign ip w m

abbrev pub one_second : ℕ
one_second = 1_000_000_000

abbrev pub is_fresh : Instant → Ip × Window → Bool
is_fresh now (k, w) = ltb (now - w.window_start) (2 * one_second)

-- The stale entries go once the map holds more than 10,000.
abbrev pub cleanup : Instant → Table → Table
cleanup now m = if ltb 10_000 (length m) then keep (is_fresh now) m else m

-- The arms of the match.
unfoldable pub on_entry : Instant → Ip → Option Window → UdpRateLimiter → UdpRateLimiter × Bool
on_entry now ip none s =
    (record s { map = cleanup now ((ip, record { count = 1; window_start = now }) ∷ s.map) }, true)
on_entry now ip (some w) s =
    if leb one_second (now - w.window_start)
    then (record s { map = assign ip (record { count = 1; window_start = now }) s.map }, true)
    else if ltb w.count s.limit_per_second
    then (record s { map = assign ip (record w { count = u32 (w.count + 1) }) s.map }, true)
    else (s, false)

unfoldable pub allow : Instant → Ip → UdpRateLimiter → UdpRateLimiter × Bool
unfolding on_entry
allow now ip s = if s.limit_per_second == 0 then (s, true) else on_entry now ip (lookup ip s.map) s
