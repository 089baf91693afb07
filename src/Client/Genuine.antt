-- ===== src/Client/Genuine.antt =====
-- src/ntp/client.rs: what a sample stands for.
use ntp_time_json_api.Common.{
  ℕ, ◌≤◌, ◌≡◌, ◌≢◌, refl, subst, List, String, take, ok, >>=-elim, arith, true, Bool,
}
use ntp_time_json_api.Common.Int.{pos, ◌≤ℤ◌}
use ntp_time_json_api.Samples.{NtpSample}
use ntp_time_json_api.Protocol.{
  NtpPacket, serialize_packet, parse_server_response, unix_ms_to_ntp, ntp_to_unix_ms,
}
use ntp_time_json_api.Client.{
  Network, Received, datagram, Reading, ClientError, system_time_unix_ms, validate_response,
  offset_of, delay_of, measured, check_delay, query_impl, SystemTime, bind_failed, connect_failed,
  send_failed, request_at, resolve, to_buffer, nothing, broken, parse, ensure,
}

-- A reply that its server vouches for and that answers the request with this timestamp.
pub record IsTrusted (reply : NtpPacket) (sent : ℕ) : Type 0 where
  pub echoes : reply.origin_timestamp ≡ sent
  pub stratum_low : 1 ≤ reply.stratum
  pub stratum_high : reply.stratum ≤ 15
  pub no_alarm : reply.li ≢ 3
  pub has_time : reply.transmit_timestamp ≢ 0

ensure-eq-ok : (b : Bool) (e : ClientError) {u : Unit {0}} → ensure b e ≡ ok u → b ≡ true
ensure-eq-ok b e h = ground arith

validate_response-IsTrusted :
    (reply : NtpPacket) (sent : ℕ) → validate_response reply sent ≡ ok tt → IsTrusted reply sent
unfolding validate_response
validate_response-IsTrusted reply sent h = record {
  echoes = ground arith;
  stratum_low = ground arith;
  stratum_high = ground arith;
  no_alarm = ground arith;
  has_time = ground arith;
}

-- The sample holds what the reply says and what the four timestamps give.
pub record Measures (s : NtpSample) (reply : NtpPacket) (sent_at : SystemTime) : Type 0 where
  pub t2 : s.t2_unix_ms ≡ ntp_to_unix_ms reply.receive_timestamp
  pub t3 : s.t3_unix_ms ≡ ntp_to_unix_ms reply.transmit_timestamp
  pub offset : s.offset_ms ≡ offset_of s.t1_unix_ms s.t2_unix_ms s.t3_unix_ms s.t4_unix_ms
  pub delay : s.delay_ms ≡ delay_of s.t1_unix_ms s.t2_unix_ms s.t3_unix_ms s.t4_unix_ms
  pub delay_nonneg : pos 0 ≤ℤ s.delay_ms
  pub stratum : s.stratum ≡ reply.stratum
  pub leap : s.leap ≡ reply.li
  pub t1 : s.t1_unix_ms ≡ system_time_unix_ms sent_at

check_delay-eq-ok : (s s' : NtpSample) → check_delay s ≡ ok s' → (s ≡ s') × (pos 0 ≤ℤ s.delay_ms)
check_delay-eq-ok s s' h = ground arith

measured-Measures :
    (server : String) (t1 t4 : Reading) (reply : NtpPacket) (s : NtpSample)
    → check_delay (measured server t1 t4 reply) ≡ ok s
    → Measures s reply t1.system
measured-Measures server t1 t4 reply s h =
    let (same, nonneg) = check_delay-eq-ok (measured server t1 t4 reply) s h in
    subst (λ r. Measures r reply t1.system) same
      (unfold measured in
        record {
          t2 = refl;
          t3 = refl;
          offset = refl;
          delay = refl;
          delay_nonneg = nonneg;
          stratum = refl;
          leap = refl;
          t1 = refl;
        })

to_buffer-eq-ok :
    (r : Received) (cut : List ℕ)
    → to_buffer r ≡ ok cut
    → (bytes : List ℕ) × (r ≡ datagram bytes) × (take 512 bytes ≡ cut)
to_buffer-eq-ok nothing cut h = absurd (ground arith)
to_buffer-eq-ok broken cut h = absurd (ground arith)
to_buffer-eq-ok (datagram bytes) cut h = (bytes, refl, ground arith)

parse-eq-ok :
    (bytes : List ℕ) (p : NtpPacket) → parse bytes ≡ ok p → parse_server_response bytes ≡ ok p
parse-eq-ok bytes p h = ground arith

-- What the query sends.
abbrev pub request_bytes : SystemTime → List ℕ
request_bytes t = serialize_packet (request_at (system_time_unix_ms t))

-- A sample is only made of a datagram that came in answer to the request, which parses as a packet
-- that echoes the timestamp of the request, and whose stratum is from 1 to 15, without a leap alarm
-- and with a transmit time. The sample holds the times of that packet, the offset and the delay of
-- the four timestamps, and the delay is not negative.
pub query_impl-IsTrusted :
    (net : Network) (server : String) (t1 t4 : Reading) (s : NtpSample)
    → query_impl net server t1 t4 ≡ ok s
    → (bytes : List ℕ) × (reply : NtpPacket) × (net.recv (request_bytes t1.system) ≡ datagram bytes)
      × (parse_server_response (take 512 bytes) ≡ ok reply)
      × IsTrusted reply (unix_ms_to_ntp (system_time_unix_ms t1.system))
      × Measures s reply t1.system
unfolding query_impl
query_impl-IsTrusted net server t1 t4 s h = >>=-elim (resolve net server) h λ addr _ h.
    >>=-elim (ensure net.binds bind_failed) h λ _ _ h.
      >>=-elim (ensure (net.connects addr) connect_failed) h λ _ _ h.
        >>=-elim (ensure (net.sends (request_bytes t1.system)) send_failed) h λ _ _ h.
          >>=-elim (to_buffer (net.recv (request_bytes t1.system))) h λ cut came h.
            >>=-elim (parse cut) h λ reply parsed h.
              >>=-elim (validate_response reply (unix_ms_to_ntp (system_time_unix_ms t1.system))) h
                λ u valid h.
                  let (bytes, arrived, is_cut) =
                    to_buffer-eq-ok (net.recv (request_bytes t1.system)) cut came in
                  (
                    bytes,
                    reply,
                    arrived,
                    rw is_cut (parse-eq-ok cut reply parsed),
                    validate_response-IsTrusted reply _ valid,
                    measured-Measures server t1 t4 reply s h,
                  )
