-- ===== src/Server.antt =====
-- src/ntp/server.rs: the UDP server, from a datagram to its answer.
-- The socket and the clocks are the system's: the readings that a request takes are arguments, one
-- for each call that reads a clock, and so is whether `send_to` succeeds. Logging is left out.
pub mod Limiter
pub mod Short
pub mod Replies
pub mod Handling
pub mod Serving
use ntp_time_json_api.Common.{
  ℕ, ◌+◌, ◌*◌, ◌/◌, min, Bool, true, false, Option, none, some, List, ltb, if◌then◌else◌, length,
  Result, ok, err, u32, u64, u32_max, saturating_add, saturating_mul, to_be_bytes,
}
use mathlib.Core.Option.{get_or}
use mathlib.Core.Option
use ntp_time_json_api.Common.Int.{ℤ, pos, negsuc}
use ntp_time_json_api.Common.Float.{Float, max_float, min_float}
use ntp_time_json_api.Samples.{Instant, SyncQuality}
use ntp_time_json_api.Quality.{compute_dispersion_ms}
use ntp_time_json_api.Protocol.{
  NtpPacket, ProtocolError, li_alarm_unsynchronized, li_no_warning, ntp_version, stratum_primary,
  stratum_unsynchronized, parse_packet, serialize_packet, copy_from_slice, unix_ms_to_ntp,
}
use ntp_time_json_api.TimeBase.{TimeBase, now_ms, has_synced, is_manual_active, manual_age_ms}
use ntp_time_json_api.Server.Limiter.{Ip, UdpRateLimiter, allow}
use ntp_time_json_api.Client.{SystemTime, system_time_unix_ms}

-- The bytes of "LOCL" and "MANU".
abbrev pub reference_id_local : ℕ
reference_id_local = 0x4C4F434C

abbrev pub reference_id_manual : ℕ
reference_id_manual = 0x4D414E55

unfoldable pub ms_to_ntp_short : ℕ → ℕ
ms_to_ntp_short ms = u32 (min (saturating_mul ms 65536 / 1000) u32_max)

unfoldable pub compute_root_delay_ms : SyncQuality → ℕ
compute_root_delay_ms q = saturating_add q.upstream_root_delay_ms q.measured_rtt_ms

unfoldable pub write_transmit : List ℕ → ℕ → List ℕ
write_transmit buf transmit_ntp =
    if ltb (length buf) 48 then buf else copy_from_slice buf 40 (to_be_bytes 8 transmit_ntp)

-- The readings of the clocks while a request is handled, in the order of the calls.
pub record Readings : Type 0 where
  pub at_limit : Instant
  pub at_receive : Instant
  pub system_receive : SystemTime
  pub at_metric : Instant
  pub at_manual : Instant
  pub at_age : Instant
  pub at_dispersion : Instant
  pub at_transmit : Instant
  pub system_transmit : SystemTime

module _ (F : Type 0) ⦃fl : Float F⦄ where
  -- `x as u32` of a float that is at most `u32::MAX`.
  unfoldable pub ms_to_ntp_short_f64 : F → ℕ
  ms_to_ntp_short_f64 ms =
      let ntp_units =
        max_float (fl.div (fl.mul ms (fl.of_int (pos 65536))) (fl.of_int (pos 1000)))
          (fl.of_int (pos 0)) in
      min (fl.to_u64 (min_float ntp_units (fl.of_int (pos u32_max)))) u32_max

  -- `compute_dispersion_ms` of this file, capped.
  abbrev pub capped_dispersion_ms : Instant → SyncQuality → ℕ → F
  capped_dispersion_ms now q max_ms =
      min_float (compute_dispersion_ms F now q) (fl.of_int (pos max_ms))

  abbrev manual_response : NtpPacket → ℕ → ℕ → NtpPacket
  manual_response request receive_ntp disp_ms = record {
    li = li_no_warning;
    vn = ntp_version;
    mode = 4;
    stratum = stratum_primary + 1;
    poll = request.poll;
    precision = negsuc 9;
    root_delay = 0;
    root_dispersion = ms_to_ntp_short disp_ms;
    reference_id = reference_id_manual;
    ref_timestamp = receive_ntp;
    origin_timestamp = request.transmit_timestamp;
    receive_timestamp = receive_ntp;
    transmit_timestamp = receive_ntp;
  }

  -- The root delay and dispersion: 0 and 0 unless there is a sync and its quality.
  abbrev root_fields : Bool → Option SyncQuality → Instant → ℕ → ℕ × ℕ
  root_fields true (some q) now max_ms = (
    ms_to_ntp_short (compute_root_delay_ms q),
    ms_to_ntp_short_f64 (capped_dispersion_ms now q max_ms),
  )
  root_fields _ _ now max_ms = (0, 0)

  abbrev ntp_response : Bool → ℕ × ℕ → NtpPacket → ℕ → NtpPacket
  ntp_response synced root request receive_ntp = record {
    li = if synced then li_no_warning else li_alarm_unsynchronized;
    vn = ntp_version;
    mode = 4;
    stratum = if synced then stratum_primary + 1 else stratum_unsynchronized;
    poll = request.poll;
    precision = negsuc 9;
    root_delay = root.0;
    root_dispersion = root.1;
    reference_id = if synced then reference_id_local else 0;
    ref_timestamp = if synced then receive_ntp else 0;
    origin_timestamp = request.transmit_timestamp;
    receive_timestamp = receive_ntp;
    transmit_timestamp = receive_ntp;
  }

  unfoldable pub build_response :
      Readings
      → TimeBase
      → NtpPacket
      → ℕ
      → Option SyncQuality
      → (max_ms manual_ms : ℕ) → TimeBase × NtpPacket
  build_response at timebase request receive_ntp quality max_ms manual_ms =
      let (timebase, manual) = is_manual_active at.at_manual timebase in
      if manual
      then (let (timebase, age_ms) = manual_age_ms at.at_age timebase in
          let phi_ms = saturating_mul age_ms 15 / 1_000_000 in
          let disp_ms = min (saturating_add manual_ms phi_ms) max_ms in
          (timebase, manual_response request receive_ntp disp_ms))
      else (let synced = has_synced timebase in
          let root = root_fields synced quality at.at_dispersion max_ms in
          (timebase, ntp_response synced root request receive_ntp))

  pub record NtpServer : Type 0 where
    pub timebase : TimeBase
    pub rate_limiter : UdpRateLimiter
    pub last_sync_quality : Option SyncQuality
    pub max_root_dispersion_ms : ℕ
    pub manual_dispersion_ms : ℕ
    -- The metrics that the server touches.
    pub requests_total : ℕ
    pub responses_total : ℕ
    pub errors_total : ℕ
    pub unsynced_responses_total : ℕ
    pub root_dispersion_seconds : F

  abbrev pub drop_request : NtpServer → NtpServer × Option (List ℕ)
  drop_request s = (record s { errors_total = u64 (s.errors_total + 1) }, none)

  -- `now_ms().unwrap_or_else(system_unix_ms)`, as an NTP timestamp.
  abbrev pub read_clock : Instant → SystemTime → TimeBase → TimeBase × ℕ
  read_clock now system timebase =
      let (timebase, t) = now_ms now timebase in
      (timebase, unix_ms_to_ntp (get_or t (system_time_unix_ms system)))

  -- The dispersion that the gauge will show.
  abbrev advertised : Instant → NtpServer → Option F
  advertised now s =
      if has_synced s.timebase
      then Option.map (λ q. capped_dispersion_ms now q s.max_root_dispersion_ms) s.last_sync_quality
      else none

  -- After `send_to` succeeded.
  abbrev sent : Option F → NtpServer → NtpServer
  sent dispersion s = record s {
    responses_total = u64 (s.responses_total + 1);
    unsynced_responses_total =
        if has_synced s.timebase
        then s.unsynced_responses_total
        else u64 (s.unsynced_responses_total + 1);
    root_dispersion_seconds = elim dispersion [
      | none ↦ s.root_dispersion_seconds
      | some disp_ms ↦ fl.div disp_ms (fl.of_int (pos 1000))
    ];
  }

  -- A request that was parsed: the answer on the wire, and the state after it.
  unfoldable pub answer : Readings → Bool → NtpPacket → NtpServer → NtpServer × Option (List ℕ)
  unfolding write_transmit build_response
  answer at sends request s =
      let (timebase, receive_ntp) = read_clock at.at_receive at.system_receive s.timebase in
      let dispersion = advertised at.at_metric (record s { timebase = timebase }) in
      let (timebase, response) =
        build_response at timebase request receive_ntp s.last_sync_quality s.max_root_dispersion_ms
          s.manual_dispersion_ms in
      let (timebase, transmit_ntp) = read_clock at.at_transmit at.system_transmit timebase in
      let wire = write_transmit (serialize_packet response) transmit_ntp in
      let s = record s { timebase = timebase } in
      if sends
      then (sent dispersion s, some wire)
      else (record s { errors_total = u64 (s.errors_total + 1) }, some wire)

  abbrev pub on_parsed :
      Readings → Bool → Result NtpPacket ProtocolError → NtpServer → NtpServer × Option (List ℕ)
  on_parsed at sends (ok request) s = answer at sends request s
  on_parsed at sends (err e) s = drop_request s

  abbrev pub counted : NtpServer → NtpServer
  counted s = record s { requests_total = u64 (s.requests_total + 1) }

  -- The datagram that the handler hands to `send_to`, if it comes so far, and the state after it.
  unfoldable pub handle_request :
      Readings → Bool → Ip → List ℕ → NtpServer → NtpServer × Option (List ℕ)
  handle_request at sends peer bytes s =
      let (limiter, allowed) = allow at.at_limit peer s.rate_limiter in
      let s = record (counted s) { rate_limiter = limiter } in
      if allowed then on_parsed at sends (parse_packet bytes) s else drop_request s
