-- ===== src/Protocol/Timestamps.antt =====
-- src/ntp/protocol.rs: conversions between Unix milliseconds and NTP timestamps.
use ntp_time_json_api.Common.{
  ℕ, ◌+◌, ◌-◌, ◌*◌, ◌/◌, ◌%◌, ◌^◌, ◌<◌, ◌≡◌, arith, u64, bit_and, ◌==◌, if◌then◌else◌,
}
use ntp_time_json_api.Common.Int.{ℤ, pos, negsuc}
use ntp_time_json_api.Common.Bits.{bit_or_disjoint, bit_and_mask}
use ntp_time_json_api.Protocol.{ntp_epoch_offset_secs, unix_ms_to_ntp, ntp_to_unix_ms}

-- The times that the first NTP era holds, up to February 2036.
abbrev pub InEra : ℕ → Type 0
InEra ms = ms / 1000 + ntp_epoch_offset_secs < 2 ^ 32

-- Seconds and fraction stand in their own halves.
pub unix_ms_to_ntp_fields :
    (ms : ℕ)
    → InEra ms
    → unix_ms_to_ntp (pos ms)
      ≡ (ms / 1000 + ntp_epoch_offset_secs) * 2 ^ 32 + ms % 1000 * 2 ^ 32 / 1000
unfolding unix_ms_to_ntp
unix_ms_to_ntp_fields ms h = ground (
  arith,
  bit_and_mask 32 (ms % 1000 * 2 ^ 32 / 1000),
  bit_or_disjoint 32 (ms / 1000 + ntp_epoch_offset_secs) (ms % 1000 * 2 ^ 32 / 1000) (omega arith),
)

-- What the conversion to NTP and back gives for a time in the era: the fraction is rounded down
-- twice, so a millisecond is lost unless the time is a multiple of 125 ms.
pub ntp_to_unix_ms-unix_ms_to_ntp :
    (ms : ℕ)
    → InEra ms
    → ntp_to_unix_ms (unix_ms_to_ntp (pos ms)) ≡ pos (ms - (if ms % 125 == 0 then 0 else 1))
unfolding ntp_to_unix_ms
ntp_to_unix_ms-unix_ms_to_ntp ms h =
    let t = unix_ms_to_ntp (pos ms) in ground (arith, unix_ms_to_ntp_fields ms h, bit_and_mask 32 t)

-- Later times have later timestamps within the era.
unix_ms_to_ntp_mono : (a b : ℕ) → a < b → InEra b → unix_ms_to_ntp (pos a) < unix_ms_to_ntp (pos b)
unix_ms_to_ntp_mono a b h e =
    omega (arith, unix_ms_to_ntp_fields a (omega arith), unix_ms_to_ntp_fields b e)

-- Every timestamp fits 64 bits: the seconds are cut to 32 bits and the fraction stays below them.
pub unix_ms_to_ntp-lt : (z : ℤ) → unix_ms_to_ntp z < 2 ^ 64
unfolding unix_ms_to_ntp
unix_ms_to_ntp-lt (negsuc n) = omega arith
unix_ms_to_ntp-lt (pos ms) =
    let secs = u64 (ms / 1000 + ntp_epoch_offset_secs) in
    let frac = u64 (ms % 1000 * 2 ^ 32) / 1000 in
    let cut : u64 (secs * 2 ^ 32) ≡ secs % 2 ^ 32 * 2 ^ 32 = omega arith in
    rw cut (
      omega (
        arith,
        bit_and_mask 32 frac,
        bit_or_disjoint 32 (secs % 2 ^ 32) (bit_and frac 0xFFFF_FFFF)
            (omega (arith, bit_and_mask 32 frac)),
      ))
