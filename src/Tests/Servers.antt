-- ===== src/Tests/Servers.antt =====
-- src/ntp/server.rs at concrete inputs.
use ntp_time_json_api.Common.{
  ℕ, ◌*◌, ◌≤◌, ◌≡◌, refl, true, none, some, List, [], ◌∷◌, All, IsByte, arith, ok, take, ◌>>◌,
}
use ntp_time_json_api.Common.Int.{ℤ, pos, wrap_i64}
use ntp_time_json_api.Common.Float.{int_float}
use ntp_time_json_api.Samples.{Instant}
use ntp_time_json_api.Protocol.{
  serialize_packet, first_byte, NtpPacket, ntp_short_to_ms, parse_server_response, unix_ms_to_ntp,
}
use ntp_time_json_api.Protocol
use ntp_time_json_api.TimeBase
use ntp_time_json_api.Client.{
  system_time_unix_ms, Network, Reading, measured, check_delay, query_impl,
}
use ntp_time_json_api.Client.Genuine.{request_bytes}
use ntp_time_json_api.Server.{Readings, NtpServer, handle_request, ms_to_ntp_short}
use ntp_time_json_api.Server.Limiter.{Ip, UdpRateLimiter, allow, on_entry}
use ntp_time_json_api.Server.Limiter.Isolation.{answers_to, answers_alone, answers_to-alone}
use ntp_time_json_api.Server.Limiter.Rate.{count_allowed, answers_to-le}
use ntp_time_json_api.Server.Short.{ntp_short_to_ms-ms_to_ntp_short}
use ntp_time_json_api.Server.Replies.{vouches}
use ntp_time_json_api.Server.Serving.{
  Received, datagram, recv_fails, serve_loop, sent_to, received_from, serve_loop-sent_to,
}
use ntp_time_json_api.Server.Handling.{Outcome, handle_request-Outcome}
use ntp_time_json_api.Exchange.{carried, verdict, exchange-verdict}
use ntp_time_json_api.Tests.Packets.{wire}

-- A limit of two requests a second, with the window of address 9 open.
abbrev limiter : UdpRateLimiter
limiter = record { map = (9, record { count = 2; window_start = 500 }) ∷ []; limit_per_second = 2 }

-- Addresses 7 and 9 in turn.
abbrev requests : List (Instant × Ip)
requests = (1000, 7) ∷ (1100, 9) ∷ (1200, 7) ∷ (1300, 7) ∷ (999_000_000, 9) ∷ []

answers_to-alone_example :
    answers_to 7 requests limiter ≡ answers_alone 2 (1000 ∷ 1200 ∷ 1300 ∷ []) none
answers_to-alone_example =
    answers_to-alone 7 requests 1000 limiter (omega arith) (refl, tt) (omega arith)

answers_to-le_example : count_allowed (answers_to 9 requests limiter) ≤ 2 * 2
answers_to-le_example =
    answers_to-le 9 requests 1000 limiter (omega arith) (omega arith) (refl, tt) (omega arith)
      (omega arith)

ntp_short_to_ms-ms_to_ntp_short_example : ntp_short_to_ms (ms_to_ntp_short 70_000_000) ≡ 65_535_999
ntp_short_to_ms-ms_to_ntp_short_example = ntp_short_to_ms-ms_to_ntp_short 70_000_000 (omega arith)

abbrev at : Readings
at = record {
  at_limit = 1000;
  at_receive = 2000;
  system_receive = pos 1_699_512_705_000_000_000;
  at_metric = 2100;
  at_manual = 2200;
  at_age = 2300;
  at_dispersion = 2400;
  at_transmit = 2500;
  system_transmit = pos 1_699_512_705_000_000_000;
}

-- A server that was never synced.
abbrev server : NtpServer ℤ
server = record {
  timebase = TimeBase.new (some 0) true;
  rate_limiter = limiter;
  last_sync_quality = none;
  max_root_dispersion_ms = 1000;
  manual_dispersion_ms = 50;
  requests_total = 10;
  responses_total = 7;
  errors_total = 3;
  unsynced_responses_total = 7;
  root_dispersion_seconds = pos 0;
}

allowed : (allow at.at_limit 7 limiter).1 ≡ true
unfolding allow on_entry
allowed = refl

-- The reply of a server is no request: it is dropped.
handle_request-Outcome_example :
    Outcome ℤ at 7 wire server (handle_request ℤ at true 7 wire server).1
handle_request-Outcome_example = handle_request-Outcome ℤ at true 7 wire server (ground arith)

-- The clocks of a client, and 20 ms later; and a network on which that server answers it.
abbrev before_send : Reading
before_send = record { instant = 5_000_000_000; system = pos 1_699_512_704_500_000_000 }

abbrev after_receive : Reading
after_receive = record { instant = 5_020_000_000; system = pos 1_699_512_704_520_000_000 }

abbrev net : Network
net = record {
  lookup_host = λ _. some (1 ∷ []);
  binds = true;
  connects = λ _. true;
  sends = λ _. true;
  recv = λ bytes. carried (handle_request ℤ at true 7 bytes server).1;
}

exchange-verdict_example :
    (sent : List ℕ) × (reply : NtpPacket) × ((handle_request ℤ at true 7
        (request_bytes before_send.system)
        server).1
      ≡ some sent)
    × (parse_server_response (take 512 sent) ≡ ok reply)
    × (query_impl net "ntp.test:123" before_send after_receive
        ≡ verdict (vouches ℤ at server) reply
          >> check_delay (measured "ntp.test:123" before_send after_receive reply))
exchange-verdict_example =
    exchange-verdict ℤ net "ntp.test:123" before_send after_receive 1 [] at true 7 server refl refl
      refl refl refl allowed

abbrev request : List ℕ
request = request_bytes (pos 1_699_512_704_500_000_000)

request-IsByte : All IsByte request
unfolding serialize_packet first_byte unix_ms_to_ntp system_time_unix_ms wrap_i64 Protocol.new
request-IsByte = ground arith

-- A request from address 7, an error of the socket, and the request again from address 9.
abbrev received : List Received
received = datagram at true 7 request ∷ recv_fails ∷ datagram at true 9 request ∷ []

serve_loop-sent_to_example :
    sent_to 7 (serve_loop ℤ 1024 received server).1 ≤ received_from 7 received
serve_loop-sent_to_example =
    serve_loop-sent_to ℤ 1024 received server 7 (request-IsByte, (tt, (request-IsByte, tt)))
