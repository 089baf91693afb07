-- ===== src/Protocol.antt =====
-- src/ntp/protocol.rs: the NTP packet, its parser and serializer, and the timestamp conversions.
-- A byte buffer is a list of numbers below 256; fields of width w are numbers below 2 ^ w.
pub mod Codec
pub mod Timestamps
use ntp_time_json_api.Common.{
  ℕ, ◌+◌, ◌-◌, ◌*◌, ◌/◌, ◌%◌, ◌^◌, ◌<◌, min, bit_and, bit_or, ◌≡◌, ◌⊎◌, Bool, not, ◌&&◌, List, [],
  ◌∷◌, ◌++◌, ltb, ◌==◌, if◌then◌else◌, length, get_or, take, drop, replicate, Result, ok, err,
  ◌>>=◌, u8, u64, as_i8, i8_as_u8, InI8, to_be_bytes, from_be_bytes,
}
use ntp_time_json_api.Common.Int.{
  ℤ, pos, negsuc, pos_part, ltb_ℤ, ◌-ℤ◌, sub_ℕ, saturating_mul_i64, saturating_add_i64,
}

abbrev pub ntp_epoch_offset_secs : ℕ
ntp_epoch_offset_secs = 2_208_988_800

abbrev pub ntp_packet_size : ℕ
ntp_packet_size = 48

abbrev pub ntp_version : ℕ
ntp_version = 4

abbrev pub ntp_version_3 : ℕ
ntp_version_3 = 3

abbrev pub mode_client : ℕ
mode_client = 3

abbrev pub mode_server : ℕ
mode_server = 4

abbrev pub li_no_warning : ℕ
li_no_warning = 0

abbrev pub li_alarm_unsynchronized : ℕ
li_alarm_unsynchronized = 3

abbrev pub stratum_unspecified : ℕ
stratum_unspecified = 0

abbrev pub stratum_primary : ℕ
stratum_primary = 1

abbrev pub stratum_unsynchronized : ℕ
stratum_unsynchronized = 16

pub data ProtocolError : Type 0 where
  too_short : (received minimum : ℕ) → ProtocolError
  unsupported_mode : ℕ → ProtocolError
  unsupported_version : ℕ → ProtocolError

pub record NtpPacket : Type 0 where
  pub li : ℕ  -- u8
  pub vn : ℕ  -- u8
  pub mode : ℕ  -- u8
  pub stratum : ℕ  -- u8
  pub poll : ℤ  -- i8
  pub precision : ℤ  -- i8
  pub root_delay : ℕ  -- u32
  pub root_dispersion : ℕ  -- u32
  pub reference_id : ℕ  -- u32
  pub ref_timestamp : ℕ  -- u64
  pub origin_timestamp : ℕ  -- u64
  pub receive_timestamp : ℕ  -- u64
  pub transmit_timestamp : ℕ  -- u64

unfoldable pub new : ℕ → ℕ → ℕ → NtpPacket
new li vn mode = record {
  li = li;
  vn = vn;
  mode = mode;
  stratum = 0;
  poll = pos 0;
  precision = pos 0;
  root_delay = 0;
  root_dispersion = 0;
  reference_id = 0;
  ref_timestamp = 0;
  origin_timestamp = 0;
  receive_timestamp = 0;
  transmit_timestamp = 0;
}

-- `&bytes[from..from + len]`, in range where it is used.
abbrev slice : List ℕ → ℕ → ℕ → List ℕ
slice bytes from len = take len (drop from bytes)

unfoldable pub read_u64 : List ℕ → ℕ
read_u64 bytes = from_be_bytes (take 8 bytes)

-- The packet that the 48 bytes spell, whatever its version.
unfoldable pub decode : List ℕ → NtpPacket
unfolding read_u64
decode bytes = record {
  li = get_or bytes 0 0 / 2 ^ 6;
  vn = bit_and (get_or bytes 0 0 / 2 ^ 3) 0x07;
  mode = bit_and (get_or bytes 0 0) 0x07;
  stratum = get_or bytes 1 0;
  poll = as_i8 (get_or bytes 2 0);
  precision = as_i8 (get_or bytes 3 0);
  root_delay = from_be_bytes (slice bytes 4 4);
  root_dispersion = from_be_bytes (slice bytes 8 4);
  reference_id = from_be_bytes (slice bytes 12 4);
  ref_timestamp = read_u64 (slice bytes 16 8);
  origin_timestamp = read_u64 (slice bytes 24 8);
  receive_timestamp = read_u64 (slice bytes 32 8);
  transmit_timestamp = read_u64 (slice bytes 40 8);
}

abbrev check_version : NtpPacket → Result NtpPacket ProtocolError
check_version p =
    if not (p.vn == ntp_version) && not (p.vn == ntp_version_3)
    then err (unsupported_version p.vn)
    else ok p

unfoldable pub parse_inner : List ℕ → Result NtpPacket ProtocolError
unfolding decode
parse_inner bytes =
    if ltb (length bytes) ntp_packet_size
    then err (too_short (length bytes) ntp_packet_size)
    else check_version (decode bytes)

abbrev check_client : NtpPacket → Result NtpPacket ProtocolError
check_client p = if not (p.mode == mode_client) then err (unsupported_mode p.mode) else ok p

-- What the server accepts: a client packet.
unfoldable pub parse_packet : List ℕ → Result NtpPacket ProtocolError
parse_packet bytes = do pkt ← parse_inner bytes; check_client pkt

-- What the client accepts: any mode.
unfoldable pub parse_server_response : List ℕ → Result NtpPacket ProtocolError
parse_server_response bytes = parse_inner bytes

-- `buf[at..at + src.len()].copy_from_slice(src)`.
abbrev pub copy_from_slice : List ℕ → ℕ → List ℕ → List ℕ
copy_from_slice buf at src = take at buf ++ (src ++ drop (at + length src) buf)

-- LI, VN and mode in one byte. `<<` on `u8` drops the bits above the eighth.
unfoldable pub first_byte : NtpPacket → ℕ
first_byte p =
    bit_or (bit_or (u8 (bit_and p.li 0x03 * 2 ^ 6)) (u8 (bit_and p.vn 0x07 * 2 ^ 3)))
      (bit_and p.mode 0x07)

unfoldable pub write_u64 : List ℕ → ℕ → ℕ → List ℕ
write_u64 buf at val = copy_from_slice buf at (to_be_bytes 8 val)

unfoldable pub serialize_packet : NtpPacket → List ℕ
unfolding write_u64
serialize_packet p =
    let buf = copy_from_slice (replicate ntp_packet_size 0) 0 (first_byte p ∷ []) in
    let buf = copy_from_slice buf 1 (p.stratum ∷ []) in
    let buf = copy_from_slice buf 2 (i8_as_u8 p.poll ∷ []) in
    let buf = copy_from_slice buf 3 (i8_as_u8 p.precision ∷ []) in
    let buf = copy_from_slice buf 4 (to_be_bytes 4 p.root_delay) in
    let buf = copy_from_slice buf 8 (to_be_bytes 4 p.root_dispersion) in
    let buf = copy_from_slice buf 12 (to_be_bytes 4 p.reference_id) in
    let buf = write_u64 buf 16 p.ref_timestamp in
    let buf = write_u64 buf 24 p.origin_timestamp in
    let buf = write_u64 buf 32 p.receive_timestamp in write_u64 buf 40 p.transmit_timestamp

unfoldable pub ntp_short_to_ms : ℕ → ℕ
ntp_short_to_ms raw = raw * 1000 / 2 ^ 16

-- The seconds and the fraction side by side; `<<` and `+` on `u64` wrap.
unfoldable pub unix_ms_to_ntp : ℤ → ℕ
unix_ms_to_ntp (negsuc n) = 0
unix_ms_to_ntp (pos epoch_ms) =
    let secs = epoch_ms / 1000 in
    let ms_part = epoch_ms % 1000 in
    let frac = bit_and (u64 (ms_part * 2 ^ 32) / 1000) 0xFFFF_FFFF in
    bit_or (u64 (u64 (secs + ntp_epoch_offset_secs) * 2 ^ 32)) frac

unfoldable pub ntp_to_unix_ms : ℕ → ℤ
unfolding saturating_mul_i64 saturating_add_i64
ntp_to_unix_ms ntp_ts =
    let secs_ntp = ntp_ts / 2 ^ 32 in
    let frac = bit_and ntp_ts 0xFFFF_FFFF in
    let secs_unix = sub_ℕ secs_ntp ntp_epoch_offset_secs in
    let ms = u64 (frac * 1000) / 2 ^ 32 in
    saturating_add_i64 (saturating_mul_i64 secs_unix 1000) (pos ms)

-- Every field is in the range of its Rust type, LI, VN and mode in that of their bit fields.
pub record InRange (p : NtpPacket) : Type 0 where
  pub li_bits : p.li < 4
  pub vn_bits : p.vn < 8
  pub mode_bits : p.mode < 8
  pub stratum_u8 : p.stratum < 2 ^ 8
  pub poll_i8 : InI8 p.poll
  pub precision_i8 : InI8 p.precision
  pub root_delay_u32 : p.root_delay < 2 ^ 32
  pub root_dispersion_u32 : p.root_dispersion < 2 ^ 32
  pub reference_id_u32 : p.reference_id < 2 ^ 32
  pub ref_u64 : p.ref_timestamp < 2 ^ 64
  pub origin_u64 : p.origin_timestamp < 2 ^ 64
  pub receive_u64 : p.receive_timestamp < 2 ^ 64
  pub transmit_u64 : p.transmit_timestamp < 2 ^ 64

-- The versions that the parser takes.
abbrev pub IsSupported : ℕ → Type 0
IsSupported vn = (vn ≡ ntp_version) ⊎ (vn ≡ ntp_version_3)
