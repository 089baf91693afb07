-- ===== src/Server/Short.antt =====
-- src/ntp/server.rs and src/ntp/protocol.rs: milliseconds in the NTP short format.
use ntp_time_json_api.Common.{ℕ, ◌-◌, ◌%◌, ◌^◌, ◌<◌, ◌≤◌, ◌≡◌, arith, ◌==◌, ltb, if◌then◌else◌}
use ntp_time_json_api.Common.Float.{Float}
use ntp_time_json_api.Protocol.{ntp_short_to_ms}
use ntp_time_json_api.Server.{ms_to_ntp_short, ms_to_ntp_short_f64}

pub ms_to_ntp_short-lt : (ms : ℕ) → ms_to_ntp_short ms < 2 ^ 32
unfolding ms_to_ntp_short
ms_to_ntp_short-lt ms = omega arith

pub ms_to_ntp_short_f64-lt :
    (F : Type 0) ⦃fl : Float F⦄ (ms : F) → ms_to_ntp_short_f64 F ms < 2 ^ 32
unfolding ms_to_ntp_short_f64
ms_to_ntp_short_f64-lt F ms = omega arith

-- A client reads back the milliseconds that the server was given, or one less where they are no
-- multiple of 125, as far as the format reaches; from 65,536 seconds on it reads the greatest value.
pub ntp_short_to_ms-ms_to_ntp_short :
    (ms : ℕ)
    → ms < 2 ^ 64
    → ntp_short_to_ms (ms_to_ntp_short ms)
      ≡ (if ltb ms 65_536_000 then ms - (if ms % 125 == 0 then 0 else 1) else 65_535_999)
unfolding ntp_short_to_ms ms_to_ntp_short
ntp_short_to_ms-ms_to_ntp_short ms h = ground arith

-- A longer delay is never advertised as a shorter one.
ms_to_ntp_short_mono : (a b : ℕ) → a ≤ b → ms_to_ntp_short a ≤ ms_to_ntp_short b
unfolding ms_to_ntp_short
ms_to_ntp_short_mono a b h = ground arith
