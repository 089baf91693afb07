-- ===== src/Protocol/Codec.antt =====
-- src/ntp/protocol.rs: parsing and serializing are inverse to each other.
use ntp_time_json_api.Common.{
  ℕ, zero, suc, ◌≤◌, ◌+◌, ◌*◌, ◌/◌, ◌%◌, ◌^◌, bit_and, ◌≡◌, refl, sym, ap, subst, ◌∙◌, List, ◌∷◌,
  ◌++◌, arith, ◌||◌, ◌==◌, if◌then◌else◌, err, length, get_or, take, drop, All, cells,
  cells-append-drop, take-cells, All-get_or, length-append, ok, from_be_bytes-to_be_bytes_32,
  from_be_bytes-to_be_bytes_64, as_i8-i8_as_u8, as_i8-InI8, i8_as_u8-as_i8, IsByte, to_be_bytes,
  from_be_bytes, to_be_bytes-from_be_bytes, from_be_bytes-lt, ◌<◌,
}
use ntp_time_json_api.Common.Bits.{bit_or_disjoint, bit_and_mask}
use ntp_time_json_api.Protocol.{
  NtpPacket, InRange, IsSupported, check_version, too_short, unsupported_mode, unsupported_version,
  decode, parse_inner, parse_packet, parse_server_response, serialize_packet, first_byte,
}

-- The fields of the first byte lie side by side, cut to their widths.
first_byte_sum : (p : NtpPacket) → first_byte p ≡ p.li % 4 * 64 + p.vn % 8 * 8 + p.mode % 8
unfolding first_byte
first_byte_sum p = ground (
  arith,
  bit_and_mask 2 p.li,
  bit_and_mask 3 p.vn,
  bit_and_mask 3 p.mode,
  bit_or_disjoint 6 (p.li % 4) (p.vn % 8 * 8) (omega arith),
  bit_or_disjoint 3 (p.li % 4 * 8 + p.vn % 8) (p.mode % 8) (omega arith),
)

module _ (p : NtpPacket) (rest : List ℕ) (r : InRange p) where
  decode-serialize_packet : decode (serialize_packet p ++ rest) ≡ p
  unfolding decode serialize_packet
  decode-serialize_packet = λ i. record {
    li = li_back i;
    vn = vn_back i;
    mode = mode_back i;
    stratum = p.stratum;
    poll = as_i8-i8_as_u8 p.poll r.poll_i8 i;
    precision = as_i8-i8_as_u8 p.precision r.precision_i8 i;
    root_delay = from_be_bytes-to_be_bytes_32 p.root_delay r.root_delay_u32 i;
    root_dispersion = from_be_bytes-to_be_bytes_32 p.root_dispersion r.root_dispersion_u32 i;
    reference_id = from_be_bytes-to_be_bytes_32 p.reference_id r.reference_id_u32 i;
    ref_timestamp = from_be_bytes-to_be_bytes_64 p.ref_timestamp r.ref_u64 i;
    origin_timestamp = from_be_bytes-to_be_bytes_64 p.origin_timestamp r.origin_u64 i;
    receive_timestamp = from_be_bytes-to_be_bytes_64 p.receive_timestamp r.receive_u64 i;
    transmit_timestamp = from_be_bytes-to_be_bytes_64 p.transmit_timestamp r.transmit_u64 i;
  }
    where
      li_back : first_byte p / 2 ^ 6 ≡ p.li
      li_back = omega (arith, first_byte_sum p, r)

      vn_back : bit_and (first_byte p / 2 ^ 3) 0x07 ≡ p.vn
      vn_back = omega (arith, first_byte_sum p, bit_and_mask 3 (first_byte p / 8), r)

      mode_back : bit_and (first_byte p) 0x07 ≡ p.mode
      mode_back = omega (arith, first_byte_sum p, bit_and_mask 3 (first_byte p), r)

length-serialize_packet : (p : NtpPacket) → length (serialize_packet p) ≡ 48
unfolding serialize_packet
length-serialize_packet p = refl

parse_inner_long : (bs : List ℕ) → 48 ≤ length bs → parse_inner bs ≡ check_version (decode bs)
unfolding parse_inner
parse_inner_long bs h = ground arith

-- The wire form of a packet in range is long enough, and holds the packet.
parse_inner_wire :
    (p : NtpPacket) (rest : List ℕ)
    → InRange p
    → parse_inner (serialize_packet p ++ rest) ≡ check_version p
parse_inner_wire p rest r =
    let wire = serialize_packet p in
    parse_inner_long (wire ++ rest)
      (omega (arith, length-serialize_packet p, length-append wire rest))
    ∙ ap check_version (decode-serialize_packet p rest r)

-- What the server's parser makes of any packet in range, whatever follows it on the wire: the
-- packet itself if it is a client packet of version 3 or 4, and else an error that names the field.
pub parse_packet-serialize_packet :
    (p : NtpPacket) (rest : List ℕ)
    → InRange p
    → parse_packet (serialize_packet p ++ rest) ≡ (
        if p.vn == 4 || p.vn == 3
        then (if p.mode == 3 then ok p else err (unsupported_mode p.mode))
        else err (unsupported_version p.vn))
unfolding parse_packet
parse_packet-serialize_packet p rest r = rw (parse_inner_wire p rest r) (ground arith)

-- The client's parser takes back any packet in range of version 3 or 4, in any mode.
pub parse_server_response-serialize_packet :
    (p : NtpPacket) (rest : List ℕ)
    → InRange p
    → IsSupported p.vn
    → parse_server_response (serialize_packet p ++ rest) ≡ ok p
unfolding parse_server_response
parse_server_response-serialize_packet p rest r v = rw (parse_inner_wire p rest r) (ground arith)

-- A short buffer is refused with its length, whatever it holds.
pub parse_packet_short :
    (bs : List ℕ) → length bs < 48 → parse_packet bs ≡ err (too_short (length bs) 48)
unfolding parse_packet parse_inner
parse_packet_short bs h = ground arith

-- The eight bits of the first byte are spelled again from the three fields that they hold.
first_byte-decode : (b : ℕ) (bs : List ℕ) → IsByte b → first_byte (decode (b ∷ bs)) ≡ b
unfolding decode
first_byte-decode b bs h =
    omega (arith, first_byte_sum (decode (b ∷ bs)), bit_and_mask 3 b, bit_and_mask 3 (b / 8))

module _ (bs : List ℕ) (bytes : All IsByte bs) where
  byte_at : (i : ℕ) → get_or bs i 0 < 256
  byte_at i = All-get_or 0 IsByte bs i (omega arith) bytes

  cells-IsByte : (k i : ℕ) → All IsByte (cells 0 k i bs)
  cells-IsByte zero i = tt
  cells-IsByte (suc k) i = (byte_at i, cells-IsByte k (suc i))

  word_at :
      (k i : ℕ)
      → to_be_bytes (length (cells 0 k i bs)) (from_be_bytes (cells 0 k i bs)) ≡ cells 0 k i bs
  word_at k i = to_be_bytes-from_be_bytes (cells 0 k i bs) (cells-IsByte k i)

  word_at-lt : (k i : ℕ) → from_be_bytes (cells 0 k i bs) < 256 ^ length (cells 0 k i bs)
  word_at-lt k i = from_be_bytes-lt (cells 0 k i bs) (cells-IsByte k i)

  serialize_packet-decode-cells :
      serialize_packet (decode (cells 0 48 0 bs ++ drop 48 bs)) ≡ cells 0 48 0 bs
  unfolding serialize_packet decode
  serialize_packet-decode-cells = λ i.
      first_byte-decode (get_or bs 0 0) (cells 0 47 1 bs ++ drop 48 bs) (byte_at 0) i
      ∷ get_or bs 1 0
      ∷ i8_as_u8-as_i8 (get_or bs 2 0) (byte_at 2) i
      ∷ i8_as_u8-as_i8 (get_or bs 3 0) (byte_at 3) i
      ∷ (word_at 4 4 i
          ++ (word_at 4 8 i
              ++ (word_at 4 12 i
                  ++ (word_at 8 16 i ++ (word_at 8 24 i ++ (word_at 8 32 i ++ word_at 8 40 i))))))

-- A packet that was parsed spells the 48 bytes that it was read from.
pub serialize_packet-parse_inner :
    (bs : List ℕ) (p : NtpPacket)
    → All IsByte bs
    → parse_inner bs ≡ ok p
    → serialize_packet p ≡ take 48 bs
unfolding parse_inner
serialize_packet-parse_inner bs p bytes e =
    let long : 48 ≤ length bs = ground arith in
    let decoded : decode bs ≡ p = ground arith in
    rw (← decoded) (
      ap (λ t. serialize_packet (decode t)) (cells-append-drop 0 48 bs long)
      ∙ serialize_packet-decode-cells bs bytes
      ∙ sym (take-cells 0 48 bs long))

decode-cells-InRange :
    (bs : List ℕ) → All IsByte bs → InRange (decode (cells 0 48 0 bs ++ drop 48 bs))
unfolding decode
decode-cells-InRange bs bytes =
    let b0 = get_or bs 0 0 in
    record {
      li_bits = omega (arith, byte_at bs bytes 0);
      vn_bits = omega (arith, bit_and_mask 3 (b0 / 8));
      mode_bits = omega (arith, bit_and_mask 3 b0);
      stratum_u8 = byte_at bs bytes 1;
      poll_i8 = as_i8-InI8 (get_or bs 2 0) (byte_at bs bytes 2);
      precision_i8 = as_i8-InI8 (get_or bs 3 0) (byte_at bs bytes 3);
      root_delay_u32 = word_at-lt bs bytes 4 4;
      root_dispersion_u32 = word_at-lt bs bytes 4 8;
      reference_id_u32 = word_at-lt bs bytes 4 12;
      ref_u64 = word_at-lt bs bytes 8 16;
      origin_u64 = word_at-lt bs bytes 8 24;
      receive_u64 = word_at-lt bs bytes 8 32;
      transmit_u64 = word_at-lt bs bytes 8 40;
    }

-- What was parsed is in range, its version is 3 or 4, and it came from 48 bytes at least.
pub parse_inner-InRange :
    (bs : List ℕ) (p : NtpPacket)
    → All IsByte bs
    → parse_inner bs ≡ ok p
    → InRange p × IsSupported p.vn × (48 ≤ length bs)
unfolding parse_inner
parse_inner-InRange bs p bytes e =
    let long : 48 ≤ length bs = ground arith in
    let decoded : decode bs ≡ p = ground arith in
    (
      subst InRange (ap decode (sym (cells-append-drop 0 48 bs long)) ∙ decoded)
          (decode-cells-InRange bs bytes),
      ground arith,
      long,
    )
