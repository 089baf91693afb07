-- ===== src/Tests/Queries.antt =====
-- src/ntp/client.rs at concrete inputs.
use ntp_time_json_api.Common.{
  ℕ, ◌+◌, ◌*◌, ◌≤◌, ◌≡◌, refl, true, some, List, [], ◌∷◌, take, ok, arith,
}
use ntp_time_json_api.Common.Int.{pos, abs_ℤ, ◌-ℤ◌, ◌+ℤ◌, wrap_i64, ◌-i64◌}
use ntp_time_json_api.Samples.{NtpSample}
use ntp_time_json_api.Protocol.{
  ntp_to_unix_ms, NtpPacket, parse_inner, decode, read_u64, parse_server_response, unix_ms_to_ntp,
}
use ntp_time_json_api.Client.{
  Network, Reading, datagram, system_time_unix_ms, validate_response, measured, delay_of, offset_of,
  query_impl,
}
use ntp_time_json_api.Client.Genuine.{query_impl-IsTrusted, request_bytes, IsTrusted, Measures}
use ntp_time_json_api.Client.Accuracy.{offset_of_accuracy}
use ntp_time_json_api.Tests.Packets.{some_reply, wire}

-- A network on which the server at address 1 answers with the reply above.
abbrev net : Network
net = record {
  lookup_host = λ _. some (1 ∷ []);
  binds = true;
  connects = λ _. true;
  sends = λ _. true;
  recv = λ _. datagram wire;
}

-- The clocks: a time as the client has it, and 300 ms later.
abbrev before_send : Reading
before_send = record { instant = 5_000_000_000; system = pos 1_699_512_704_500_000_000 }

abbrev after_receive : Reading
after_receive = record { instant = 5_300_000_000; system = pos 1_699_512_704_800_000_000 }

abbrev sample : NtpSample
sample = measured "ntp.test:123" before_send after_receive some_reply

query-answers : query_impl net "ntp.test:123" before_send after_receive ≡ ok sample
unfolding query_impl measured validate_response system_time_unix_ms delay_of offset_of
    parse_server_response parse_inner decode read_u64 unix_ms_to_ntp wrap_i64 ◌-i64◌ ntp_to_unix_ms
query-answers = refl

query_impl-IsTrusted_example :
    (bytes : List ℕ) × (reply : NtpPacket) × (net.recv (request_bytes before_send.system)
      ≡ datagram bytes)
    × (parse_server_response (take 512 bytes) ≡ ok reply)
    × IsTrusted reply (unix_ms_to_ntp (system_time_unix_ms before_send.system))
    × Measures sample reply before_send.system
query_impl-IsTrusted_example =
    query_impl-IsTrusted net "ntp.test:123" before_send after_receive sample query-answers

there : pos 6010 ≡ pos 5000 +ℤ pos 1000 +ℤ pos 10
unfolding ◌+ℤ◌
there = refl

back_again : pos 6020 +ℤ pos 40 ≡ pos 5060 +ℤ pos 1000
unfolding ◌+ℤ◌
back_again = refl

-- The server is 1000 ms ahead, the request takes 10 ms and the reply 40 ms.
offset_of_accuracy_example :
    (delay_of (pos 5000) (pos 6010) (pos 6020) (pos 5060) ≡ pos (10 + 40))
    × (2 * abs_ℤ (offset_of (pos 5000) (pos 6010) (pos 6020) (pos 5060) -ℤ pos 1000) ≤ 10 + 40 + 1)
offset_of_accuracy_example =
    offset_of_accuracy (pos 5000) (pos 6010) (pos 6020) (pos 5060) (omega arith) (omega arith)
      (omega arith) (omega arith) (pos 1000) 10 40 there back_again
