-- ===== src/Server/Handling.antt =====
-- src/ntp/server.rs: the handler of a datagram.
use ntp_time_json_api.Common.{
  ℕ, ◌+◌, ◌^◌, ◌<◌, ◌≤◌, ◌≡◌, refl, sym, ap, subst, ◌∙◌, Bool, true, false, Option, none, some,
  List, arith, if_cases, length, All, IsByte, Result, ok, err,
}
use ntp_time_json_api.Common.Float.{Float}
use ntp_time_json_api.Protocol.{NtpPacket, InRange, serialize_packet, parse_packet, parse_inner}
use ntp_time_json_api.Protocol.Codec.{parse_inner-InRange}
use ntp_time_json_api.Server.{Readings, NtpServer, answer, handle_request}
use ntp_time_json_api.Server.Limiter.{Ip}
use ntp_time_json_api.Server.Replies.{IsReply, answer-IsReply, vouches}
use ntp_time_json_api.Server.Limiter.{allow}
use ntp_time_json_api.Server.{on_parsed, counted}
use ntp_time_json_api.Protocol.{ProtocolError}
use ntp_time_json_api.Common.{>>=-elim}

module _ (F : Type 0) ⦃fl : Float F⦄ where
  -- What becomes of a datagram: it is dropped without an answer, or it was let through and is a
  -- client's packet, and then its answer says so.
  pub data Outcome (at : Readings) (peer : Ip) (bytes : List ℕ) (s : NtpServer F)
      : Option (List ℕ) → Type 0 where
    limited : (allow at.at_limit peer s.rate_limiter).1 ≡ false → Outcome at peer bytes s none
    malformed :
        (e : ProtocolError)
        → (allow at.at_limit peer s.rate_limiter).1 ≡ true
        → parse_packet bytes ≡ err e
        → Outcome at peer bytes s none
    answered :
        (request reply : NtpPacket)
        → (allow at.at_limit peer s.rate_limiter).1 ≡ true
        → parse_packet bytes ≡ ok request
        → IsReply request (vouches F at s) reply
        → Outcome at peer bytes s (some (serialize_packet reply))

  parse_packet-InRange :
      (bytes : List ℕ) (request : NtpPacket)
      → All IsByte bytes
      → parse_packet bytes ≡ ok request
      → InRange request × (48 ≤ length bytes)
  unfolding parse_packet
  parse_packet-InRange bytes request b e = >>=-elim (parse_inner bytes) e λ p parsed checked.
      let same : p ≡ request = ground arith in
      let (r, _, long) = parse_inner-InRange bytes p b parsed in (subst InRange same r, long)

  module _ (at : Readings) (sends : Bool) (peer : Ip) (bytes : List ℕ) (s : NtpServer F)
      (b : All IsByte bytes) where
    on_parsed-Outcome :
        (s' : NtpServer F) (p : Result NtpPacket ProtocolError)
        → s'.timebase ≡ s.timebase
        → (allow at.at_limit peer s.rate_limiter).1 ≡ true
        → parse_packet bytes ≡ p
        → Outcome at peer bytes s (on_parsed F at sends p s').1
    on_parsed-Outcome s' (err e) same allowed h = malformed e allowed h
    on_parsed-Outcome s' (ok request) same allowed h =
        let (r, _) = parse_packet-InRange bytes request b h in
        let (reply, wire, v) = answer-IsReply F at sends request s' r in
        subst (Outcome at peer bytes s) (sym wire)
          (answered request reply allowed h (rw (← same) v))

    -- The handler drops a datagram over the limit, and one that is no client packet; to any other
    -- it hands exactly one answer to the socket, which echoes the request's transmit timestamp, and
    -- is of stratum 2 where the time is manual or synced, and the alarm with stratum 16 where not.
    pub handle_request-Outcome : Outcome at peer bytes s (handle_request F at sends peer bytes s).1
    unfolding handle_request
    handle_request-Outcome =
        if_cases (λ (x : NtpServer F × Option (List ℕ)). Outcome at peer bytes s x.1)
          (allow at.at_limit peer s.rate_limiter).1
          (λ allowed.
            on_parsed-Outcome
              (record (counted F s) { rate_limiter = (allow at.at_limit peer s.rate_limiter).0 })
              (parse_packet bytes) refl allowed refl)
          limited

  length-serialize_packet : (p : NtpPacket) → length (serialize_packet p) ≡ 48
  unfolding serialize_packet
  length-serialize_packet p = refl

  Outcome-length :
      (at : Readings) (peer : Ip) (bytes : List ℕ) (s : NtpServer F) (o : Option (List ℕ))
      (wire : List ℕ)
      → All IsByte bytes
      → Outcome at peer bytes s o
      → o ≡ some wire
      → (length wire ≡ 48) × (48 ≤ length bytes)
  Outcome-length at peer bytes s o wire b (limited _) e = absurd (ground arith)
  Outcome-length at peer bytes s o wire b (malformed _ _ _) e = absurd (ground arith)
  Outcome-length at peer bytes s o wire b (answered request reply _ parsed _) e =
      let same : serialize_packet reply ≡ wire = ground arith in
      (
        ap length (sym same) ∙ length-serialize_packet reply,
        (parse_packet-InRange bytes request b parsed).1,
      )

  -- No answer is longer than the request that it answers, so the server cannot be used to amplify.
  pub handle_request-length :
      (at : Readings) (sends : Bool) (peer : Ip) (bytes wire : List ℕ) (s : NtpServer F)
      → All IsByte bytes
      → (handle_request F at sends peer bytes s).1 ≡ some wire
      → length wire ≤ length bytes
  handle_request-length at sends peer bytes wire s b e = omega (
    arith,
    Outcome-length at peer bytes s _ wire b (handle_request-Outcome at sends peer bytes s b) e,
  )

  -- Every datagram is counted once as a request, and once as a response or as an error.
  handle_request-counts :
      (at : Readings) (sends : Bool) (peer : Ip) (bytes : List ℕ) (s : NtpServer F)
      → s.responses_total + 1 < 2 ^ 64
      → s.errors_total + 1 < 2 ^ 64
      → s.requests_total + 1 < 2 ^ 64
      → let s' = (handle_request F at sends peer bytes s).0 in
        (s'.requests_total ≡ s.requests_total + 1)
        × (s'.responses_total + s'.errors_total ≡ s.responses_total + s.errors_total + 1)
  unfolding handle_request answer
  handle_request-counts at sends peer bytes s r e q = ground arith
