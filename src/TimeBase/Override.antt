-- ===== src/TimeBase/Override.antt =====
-- src/timebase.rs: the window of a manual override.
use ntp_time_json_api.Common.{
  ℕ, ◌+◌, ◌-◌, ◌*◌, ◌/◌, ◌^◌, ◌≤◌, ◌<◌, ◌≡◌, ◌&&◌, some, arith, ltb, if◌then◌else◌,
}
use ntp_time_json_api.Common.Int.{ℤ, pos, leb_ℤ, ◌+i64◌}
use ntp_time_json_api.Samples.{Instant}
use ntp_time_json_api.TimeBase.{
  TimeBase, serve, ntp_path, now_ms, set_manual, clear_manual, is_manual_active,
}

-- What the monotonic clamp makes of a time.
abbrev pub clamped : TimeBase → ℤ → ℤ
clamped s t =
    if s.monotonic_output && leb_ℤ t s.last_served_ms then s.last_served_ms +i64 pos 1 else t

module _ (s : TimeBase) (reference at now : Instant) (epoch_ms : ℤ) (ttl_secs : ℕ)
    (forced : s.reference_instant ≡ some reference) (started : reference ≤ at) (later : at ≤ now)
    (now_fits : now - reference < 2 ^ 64)
    (end_fits : at - reference + ttl_secs * 1_000_000_000 < 2 ^ 64) where
  -- A manual override is served, clamped, until its time to live has passed; from then on the time
  -- is the one that is served where no override was set.
  pub now_ms-set_manual : (now_ms now (set_manual at epoch_ms ttl_secs s)).1 ≡ (
      if ltb now (at + ttl_secs * 1_000_000_000)
      then some (clamped s (epoch_ms +i64 pos ((now - at) / 1_000_000)))
      else (now_ms now (clear_manual s)).1)
  unfolding now_ms set_manual clear_manual serve ntp_path
  now_ms-set_manual = ground arith

  -- It is reported as active for just as long.
  is_manual_active-set_manual :
      (is_manual_active now (set_manual at epoch_ms ttl_secs s)).1
      ≡ ltb now (at + ttl_secs * 1_000_000_000)
  unfolding is_manual_active set_manual
  is_manual_active-set_manual = ground arith
