-- ===== src/Main/Probing.antt =====
-- src/main.rs: the probe loop.
use ntp_time_json_api.Common.{
  ℕ, ◌+◌, ◌-◌, ◌*◌, ◌%◌, ◌^◌, ◌≤◌, ◌<◌, ◌≡◌, none, some, [], ◌∷◌, ltb, if◌then◌else◌, u64, arith,
}
use ntp_time_json_api.Common.Int.{pos, wrap_i64}
use ntp_time_json_api.Common.Maps.{Entries, insert}
use ntp_time_json_api.Samples.{as_millis}
use ntp_time_json_api.Stats.{ServerStats, is_healthy}
use ntp_time_json_api.Config.{NtpConfig}
use ntp_time_json_api.Metrics.{Metrics}

-- The delay before a probe, for a random number.
unfoldable pub probe_delay_ms : {F : Type 0} → NtpConfig F → ℕ → ℕ
probe_delay_ms config random =
    let min_ms = u64 (config.probe_min_interval_secs * 1000) in
    let max_ms = u64 (config.probe_max_interval_secs * 1000) in
    u64 (min_ms + (if ltb min_ms max_ms then random % (max_ms - min_ms) else 0))

-- What a probe sets for each server.
unfoldable pub probe_metrics : {F : Type 0} → Entries ServerStats → Metrics F → Metrics F
probe_metrics [] m = m
probe_metrics ((server, st) ∷ stats) m =
    let m = record m {
      ntp_server_up = insert server (if is_healthy st then 1 else 0) m.ntp_server_up;
    } in
    probe_metrics stats (elim st.last_rtt [
      | none ↦ m
      | some rtt ↦ record m {
        ntp_server_rtt_milliseconds =
            insert server (wrap_i64 (pos (as_millis rtt))) m.ntp_server_rtt_milliseconds;
      }
    ])

between :
    (lo hi random : ℕ)
    → lo ≤ hi
    → hi < 2 ^ 64
    → let delay = (lo + (if ltb lo hi then random % (hi - lo) else 0)) % 2 ^ 64 in
      (lo ≤ delay) × (delay ≤ hi)
between lo hi random h k = grind arith

-- Where the settings are valid and do not overflow, a probe waits at least the shortest interval
-- and at most the longest.
pub probe_delay_ms_bounds :
    {F : Type 0} (config : NtpConfig F) (random : ℕ)
    → config.probe_min_interval_secs ≤ config.probe_max_interval_secs
    → config.probe_max_interval_secs < 2 ^ 54
    → (config.probe_min_interval_secs * 1000 ≤ probe_delay_ms config random)
      × (probe_delay_ms config random ≤ config.probe_max_interval_secs * 1000)
unfolding probe_delay_ms
probe_delay_ms_bounds config random h k =
    let lo = config.probe_min_interval_secs * 1000 in
    let hi = config.probe_max_interval_secs * 1000 in
    let lo_fits : lo % 2 ^ 64 ≡ lo = omega arith in
    let hi_fits : hi % 2 ^ 64 ≡ hi = omega arith in
    rw (lo_fits, hi_fits) (between lo hi random (omega arith) (omega arith))
