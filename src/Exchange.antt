-- ===== src/Exchange.antt =====
-- src/ntp/client.rs against src/ntp/server.rs: the client asks this server.
use ntp_time_json_api.Common.{
  ℕ, ◌≡◌, Bool, true, false, Option, none, some, String, ◌∷◌, ap, ◌∙◌, ◌>>◌, List, [], take, arith,
  inl, ◌==◌, if◌then◌else◌, ok, err, Result,
}
use ntp_time_json_api.Common.Float.{Float}
use ntp_time_json_api.Common.Int.{ℤ}
use ntp_time_json_api.Protocol.{
  NtpPacket, InRange, first_byte, serialize_packet, parse_packet, parse_server_response,
  unix_ms_to_ntp,
}
use ntp_time_json_api.Protocol.Codec.{
  parse_packet-serialize_packet, parse_server_response-serialize_packet,
}
use ntp_time_json_api.Protocol.Timestamps.{unix_ms_to_ntp-lt}
use ntp_time_json_api.Protocol
use ntp_time_json_api.Client.{
  SystemTime, ClientError, system_time_unix_ms, request_at, unsynchronized, zero_transmit,
  validate_response, Network, Reading, Address, Received, nothing, datagram, measured, check_delay,
  query_impl,
}
use ntp_time_json_api.Client.Genuine.{request_bytes}
use ntp_time_json_api.Server.{Readings, NtpServer, handle_request, counted}
use ntp_time_json_api.Server.Limiter.{Ip, allow}
use ntp_time_json_api.Server.Replies.{Replies, vouches, answer-IsReply}

request_at-InRange : (z : ℤ) → InRange (request_at z)
unfolding Protocol.new
request_at-InRange z = record {
  li_bits = omega arith;
  vn_bits = omega arith;
  mode_bits = omega arith;
  stratum_u8 = omega arith;
  poll_i8 = ground arith;
  precision_i8 = ground arith;
  root_delay_u32 = omega arith;
  root_dispersion_u32 = omega arith;
  reference_id_u32 = omega arith;
  ref_u64 = omega arith;
  origin_u64 = omega arith;
  receive_u64 = omega arith;
  transmit_u64 = unix_ms_to_ntp-lt z;
}

parse_packet-request_bytes :
    (t : SystemTime) → parse_packet (request_bytes t) ≡ ok (request_at (system_time_unix_ms t))
unfolding serialize_packet first_byte Protocol.new
parse_packet-request_bytes t =
    parse_packet-serialize_packet (request_at (system_time_unix_ms t)) []
      (request_at-InRange (system_time_unix_ms t))

take-serialize_packet :
    (p : NtpPacket)
    → InRange p
    → p.vn ≡ 4
    → parse_server_response (take 512 (serialize_packet p)) ≡ ok p
unfolding serialize_packet first_byte
take-serialize_packet p r v = parse_server_response-serialize_packet p [] r (inl v)

-- What the client makes of an answer.
abbrev pub verdict : Bool → NtpPacket → Result (Unit {0}) ClientError
verdict trusted reply =
    if trusted
    then (if reply.transmit_timestamp == 0 then err zero_transmit else ok tt)
    else err (unsynchronized 16)

validate_response-Replies :
    (request reply : NtpPacket) (trusted : Bool)
    → Replies request reply trusted
    → validate_response reply request.transmit_timestamp ≡ verdict trusted reply
unfolding validate_response
validate_response-Replies request reply true v = ground (arith, v)
validate_response-Replies request reply false v = ground (arith, v)

-- A query over a network that works, up to the datagram and the packet in it.
query_impl-arrived :
    (net : Network) (server : String) (t1 t4 : Reading) (a : Address) (others : List Address)
    (wire : List ℕ) (reply : NtpPacket)
    → net.lookup_host server ≡ some (a ∷ others)
    → net.binds ≡ true
    → net.connects a ≡ true
    → net.sends (request_bytes t1.system) ≡ true
    → net.recv (request_bytes t1.system) ≡ datagram wire
    → parse_server_response (take 512 wire) ≡ ok reply
    → query_impl net server t1 t4
      ≡ validate_response reply (unix_ms_to_ntp (system_time_unix_ms t1.system))
        >> check_delay (measured server t1 t4 reply)
unfolding query_impl
query_impl-arrived net server t1 t4 a others wire reply resolves binds connects sends arrives
      parses =
    cc

-- What comes to the client of what the server hands to its socket.
abbrev pub carried : Option (List ℕ) → Received
carried none = nothing
carried (some wire) = datagram wire

-- A query of this server, over a network that resolves its name, sends the request and carries the
-- answer back, where the limiter lets the request through: the server answers, the client parses
-- the first 512 bytes of the answer, and the query returns the sample that this packet makes if the
-- server has a manual or a synced time, whose timestamp is not zero, and the delay that the four
-- timestamps give is not negative. It fails with the negative delay or with the zero timestamp if
-- not, and as unsynchronized with stratum 16 if the server has no time.
pub exchange-verdict :
    (F : Type 0) ⦃fl : Float F⦄ (net : Network) (server : String) (t1 t4 : Reading) (a : Address)
    (others : List Address) (at : Readings) (sends : Bool) (peer : Ip) (s : NtpServer F)
    → net.lookup_host server ≡ some (a ∷ others)
    → net.binds ≡ true
    → net.connects a ≡ true
    → net.sends (request_bytes t1.system) ≡ true
    → net.recv (request_bytes t1.system)
      ≡ carried (handle_request F at sends peer (request_bytes t1.system) s).1
    → (allow at.at_limit peer s.rate_limiter).1 ≡ true
    → (wire : List ℕ) × (reply : NtpPacket) × ((handle_request F at sends peer
          (request_bytes t1.system)
          s).1
        ≡ some wire)
      × (parse_server_response (take 512 wire) ≡ ok reply)
      × (query_impl net server t1 t4
          ≡ verdict (vouches F at s) reply >> check_delay (measured server t1 t4 reply))
unfolding handle_request
exchange-verdict F net server t1 t4 a others at sends peer s resolves binds connects sent carries
      allowed =
    let request = request_at (system_time_unix_ms t1.system) in
    let s' = record (counted F s) { rate_limiter = (allow at.at_limit peer s.rate_limiter).0 } in
    let (reply, wire, (r, v)) =
      answer-IsReply F at sends request s' (request_at-InRange (system_time_unix_ms t1.system)) in
    let answered : (handle_request F at sends peer (request_bytes t1.system) s).1
        ≡ some (serialize_packet reply) =
      rw allowed (rw (parse_packet-request_bytes t1.system) wire) in
    let parses = take-serialize_packet reply r v.version in
    (
      serialize_packet reply,
      reply,
      answered,
      parses,
      query_impl-arrived net server t1 t4 a others (serialize_packet reply) reply resolves binds
            connects sent (carries ∙ ap carried answered) parses
          ∙ ap (λ x. x >> check_delay (measured server t1 t4 reply))
              (validate_response-Replies request reply (vouches F at s) v),
    )
