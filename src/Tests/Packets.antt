-- ===== src/Tests/Packets.antt =====
-- src/ntp/protocol.rs and src/ntp/client.rs at concrete inputs.
use ntp_time_json_api.Common.{
  ℕ, ◌≤◌, ◌≡◌, refl, List, [], ◌∷◌, ◌++◌, take, ok, err, arith, All, IsByte, length,
}
use ntp_time_json_api.Common.Int.{pos, negsuc}
use ntp_time_json_api.Protocol.{
  NtpPacket, InRange, IsSupported, serialize_packet, parse_packet, parse_inner, decode,
  unsupported_version, unix_ms_to_ntp, ntp_to_unix_ms,
}
use ntp_time_json_api.Protocol.Codec.{
  parse_packet-serialize_packet, serialize_packet-parse_inner, parse_inner-InRange,
}
use ntp_time_json_api.Protocol.Timestamps.{ntp_to_unix_ms-unix_ms_to_ntp}

-- A client's request of version 2, which is not supported.
abbrev old_request : NtpPacket
old_request = record {
  li = 0;
  vn = 2;
  mode = 3;
  stratum = 0;
  poll = pos 6;
  precision = negsuc 19;
  root_delay = 0;
  root_dispersion = 0;
  reference_id = 0;
  ref_timestamp = 0;
  origin_timestamp = 0;
  receive_timestamp = 0;
  transmit_timestamp = 0xE8F7_0000_8000_0000;
}

-- A server's answer with a time of day.
abbrev pub some_reply : NtpPacket
some_reply = record {
  li = 0;
  vn = 4;
  mode = 4;
  stratum = 1;
  poll = pos 4;
  precision = negsuc 19;
  root_delay = 0x0000_1000;
  root_dispersion = 0x0000_2000;
  reference_id = 0x4C4F_434C;
  ref_timestamp = 0xE8F7_0000_0000_0000;
  origin_timestamp = 0xE8F7_0000_8000_0000;
  receive_timestamp = 0xE8F7_0001_8000_0000;
  transmit_timestamp = 0xE8F7_0001_C000_0000;
}

old_request-InRange : InRange old_request
old_request-InRange = record {
  li_bits = omega arith;
  vn_bits = omega arith;
  mode_bits = omega arith;
  stratum_u8 = omega arith;
  poll_i8 = ground arith;
  precision_i8 = ground arith;
  root_delay_u32 = omega arith;
  root_dispersion_u32 = omega arith;
  reference_id_u32 = omega arith;
  ref_u64 = omega arith;
  origin_u64 = omega arith;
  receive_u64 = omega arith;
  transmit_u64 = omega arith;
}

some_reply-InRange : InRange some_reply
some_reply-InRange = record {
  li_bits = omega arith;
  vn_bits = omega arith;
  mode_bits = omega arith;
  stratum_u8 = omega arith;
  poll_i8 = ground arith;
  precision_i8 = ground arith;
  root_delay_u32 = omega arith;
  root_dispersion_u32 = omega arith;
  reference_id_u32 = omega arith;
  ref_u64 = omega arith;
  origin_u64 = omega arith;
  receive_u64 = omega arith;
  transmit_u64 = omega arith;
}

parse_packet-serialize_packet_example :
    parse_packet (serialize_packet old_request ++ 7 ∷ []) ≡ err (unsupported_version 2)
parse_packet-serialize_packet_example =
    parse_packet-serialize_packet old_request (7 ∷ []) old_request-InRange

-- The bytes of the reply, and one more.
abbrev pub wire : List ℕ
wire =
    0x24 ∷ 1 ∷ 4 ∷ 0xEC ∷ 0 ∷ 0 ∷ 0x10 ∷ 0 ∷ 0 ∷ 0 ∷ 0x20 ∷ 0 ∷ 0x4C ∷ 0x4F ∷ 0x43 ∷ 0x4C ∷ 0xE8
    ∷ 0xF7 ∷ 0 ∷ 0 ∷ 0 ∷ 0 ∷ 0 ∷ 0 ∷ 0xE8 ∷ 0xF7 ∷ 0 ∷ 0 ∷ 0x80 ∷ 0 ∷ 0 ∷ 0 ∷ 0xE8 ∷ 0xF7 ∷ 0 ∷ 1
    ∷ 0x80 ∷ 0 ∷ 0 ∷ 0 ∷ 0xE8 ∷ 0xF7 ∷ 0 ∷ 1 ∷ 0xC0 ∷ 0 ∷ 0 ∷ 0 ∷ 99 ∷ []

wire-parses : parse_inner wire ≡ ok some_reply
unfolding parse_inner decode
wire-parses = refl

wire-IsByte : All IsByte wire
wire-IsByte = ground arith

serialize_packet-parse_inner_example : serialize_packet some_reply ≡ take 48 wire
serialize_packet-parse_inner_example =
    serialize_packet-parse_inner wire some_reply wire-IsByte wire-parses

parse_inner-InRange_example : InRange some_reply × IsSupported 4 × (48 ≤ length wire)
parse_inner-InRange_example = parse_inner-InRange wire some_reply wire-IsByte wire-parses

ntp_to_unix_ms-unix_ms_to_ntp_example :
    ntp_to_unix_ms (unix_ms_to_ntp (pos 1_700_000_000_123)) ≡ pos 1_700_000_000_122
ntp_to_unix_ms-unix_ms_to_ntp_example =
    ntp_to_unix_ms-unix_ms_to_ntp 1_700_000_000_123 (omega arith)
