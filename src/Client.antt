-- ===== src/Client.antt =====
-- src/ntp/client.rs: one exchange with an NTP server.
-- Name resolution, the socket and the clocks are the system's: a `Network` says what each call
-- answers, and the readings of the clocks are arguments. An error holds what the text of the
-- source's error names.
pub mod Accuracy
pub mod Genuine
use ntp_time_json_api.Common.{
  ℕ, ◌/◌, ◌^◌, Bool, not, Option, none, some, List, [], ◌∷◌, String, leb, ◌==◌, if◌then◌else◌, take,
  Result, ok, err, ◌>>=◌, ◌>>◌, u32,
}
use ntp_time_json_api.Common.Int.{ℤ, pos, negsuc, ltb_ℤ, wrap_i64, div_ℤ, ◌+i64◌, ◌-i64◌}
use ntp_time_json_api.Samples.{Instant, NtpSample}
use ntp_time_json_api.Protocol.{
  NtpPacket, ProtocolError, li_alarm_unsynchronized, li_no_warning, mode_client, ntp_version,
  stratum_unspecified, stratum_unsynchronized, parse_server_response, serialize_packet,
  ntp_short_to_ms, ntp_to_unix_ms, unix_ms_to_ntp,
}
use ntp_time_json_api.Protocol

pub data ClientError : Type 0 where
  resolution_failed no_address bind_failed connect_failed send_failed timed_out recv_failed :
      ClientError
  parse_failed : ProtocolError → ClientError
  origin_mismatch : (expected got : ℕ) → ClientError
  kiss_of_death : ClientError
  unsynchronized : ℕ → ClientError
  leap_alarm : ClientError
  zero_transmit : ClientError
  negative_delay : ℤ → ClientError

-- What `recv` under a timeout comes to.
pub data Received : Type 0 where
  nothing broken : Received
  datagram : List ℕ → Received

-- An IP address with a port, as one number.
abbrev pub Address : Type 0
Address = ℕ

pub record Network : Type 0 where
  pub lookup_host : String → Option (List Address)
  pub binds : Bool
  pub connects : Address → Bool
  pub sends : List ℕ → Bool
  -- What arrives when these bytes were sent.
  pub recv : List ℕ → Received

-- A `SystemTime`, in nanoseconds from the Unix epoch.
abbrev pub SystemTime : Type 0
SystemTime = ℤ

unfoldable pub system_time_unix_ms : SystemTime → ℤ
system_time_unix_ms (pos nanos) = wrap_i64 (pos (nanos / 1_000_000))
system_time_unix_ms (negsuc n) = pos 0

abbrev pub ensure : Bool → ClientError → Result (Unit {0}) ClientError
ensure b e = if b then ok tt else err e

unfoldable pub validate_response : NtpPacket → ℕ → Result (Unit {0}) ClientError
validate_response reply our_transmit_ts = do
  ensure (reply.origin_timestamp == our_transmit_ts)
      (origin_mismatch our_transmit_ts reply.origin_timestamp)
  ensure (not (reply.stratum == stratum_unspecified)) kiss_of_death
  ensure (not (leb stratum_unsynchronized reply.stratum)) (unsynchronized reply.stratum)
  ensure (not (reply.li == li_alarm_unsynchronized)) leap_alarm
  ensure (not (reply.transmit_timestamp == 0)) zero_transmit

-- θ = ((T2-T1)+(T3-T4))/2
unfoldable pub offset_of : (t1 t2 t3 t4 : ℤ) → ℤ
offset_of t1 t2 t3 t4 = div_ℤ ((t2 -i64 t1) +i64 (t3 -i64 t4)) 2

-- δ = (T4-T1)-(T3-T2)
unfoldable pub delay_of : (t1 t2 t3 t4 : ℤ) → ℤ
delay_of t1 t2 t3 t4 = (t4 -i64 t1) -i64 (t3 -i64 t2)

abbrev pub request_at : ℤ → NtpPacket
request_at t1_unix_ms = record (Protocol.new li_no_warning ntp_version mode_client) {
  transmit_timestamp = unix_ms_to_ntp t1_unix_ms;
}

-- The client's two readings of its clocks, before the send and after the receive.
pub record Reading : Type 0 where
  pub instant : Instant
  pub system : SystemTime

-- The sample that a reply makes.
unfoldable pub measured : String → Reading → Reading → NtpPacket → NtpSample
measured server t1 t4 reply =
    let t1_unix_ms = system_time_unix_ms t1.system in
    let t4_unix_ms = system_time_unix_ms t4.system in
    let t2_unix_ms = ntp_to_unix_ms reply.receive_timestamp in
    let t3_unix_ms = ntp_to_unix_ms reply.transmit_timestamp in
    record {
      server = server;
      t1_unix_ms = t1_unix_ms;
      t2_unix_ms = t2_unix_ms;
      t3_unix_ms = t3_unix_ms;
      t4_unix_ms = t4_unix_ms;
      t1_instant = t1.instant;
      t4_instant = t4.instant;
      offset_ms = offset_of t1_unix_ms t2_unix_ms t3_unix_ms t4_unix_ms;
      delay_ms = delay_of t1_unix_ms t2_unix_ms t3_unix_ms t4_unix_ms;
      root_delay_ms = u32 (ntp_short_to_ms reply.root_delay);
      root_dispersion_ms = u32 (ntp_short_to_ms reply.root_dispersion);
      precision_log2 = reply.precision;
      stratum = reply.stratum;
      leap = reply.li;
      reference_id = reply.reference_id;
      poll = reply.poll;
    }

-- A negative delay is refused.
abbrev pub check_delay : NtpSample → Result NtpSample ClientError
check_delay s = if ltb_ℤ s.delay_ms (pos 0) then err (negative_delay s.delay_ms) else ok s

abbrev resolve : Network → String → Result Address ClientError
resolve net server = elim (net.lookup_host server) [
  | none ↦ err resolution_failed
  | some [] ↦ err no_address
  | some (a ∷ as_rest) ↦ ok a
]

-- The receive buffer holds 512 bytes; more is cut off.
abbrev to_buffer : Received → Result (List ℕ) ClientError
to_buffer nothing = err timed_out
to_buffer broken = err recv_failed
to_buffer (datagram bytes) = ok (take 512 bytes)

abbrev parse : List ℕ → Result NtpPacket ClientError
parse bytes = elim (parse_server_response bytes) [ ok p ↦ ok p | err e ↦ err (parse_failed e) ]

unfoldable pub query_impl : Network → String → Reading → Reading → Result NtpSample ClientError
query_impl net server t1 t4 = do
  addr ← resolve net server
  ensure net.binds bind_failed
  ensure (net.connects addr) connect_failed
  let request = request_at (system_time_unix_ms t1.system)
  let buf = serialize_packet request
  ensure (net.sends buf) send_failed
  bytes ← to_buffer (net.recv buf)
  reply ← parse bytes
  validate_response reply request.transmit_timestamp
  check_delay (measured server t1 t4 reply)
