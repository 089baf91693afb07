-- ===== src/TimeCache.antt =====
-- src/performance.rs: `TimeCache`, the two texts that answer a request for the time.
-- The fields are atomics of their own in the source; here an update is one step.
use Prim.Native.Char.{Char}
use Prim.Native.String
use ntp_time_json_api.Common.{ℕ, zero, suc, ◌-◌, ◌/◌, ◌%◌, Bool, String, ltb, if◌then◌else◌}
use ntp_time_json_api.Common.Int.{ℤ, pos, negsuc, wrap_i64}
use ntp_time_json_api.Samples.{Instant, as_millis}

-- The decimal digits of a number, as `Display` writes them: `fuel` is the most of them.
abbrev digit : ℕ → Char
digit zero = "0"
digit (suc zero) = "1"
digit (suc (suc zero)) = "2"
digit (suc (suc (suc zero))) = "3"
digit (suc (suc (suc (suc zero)))) = "4"
digit (suc (suc (suc (suc (suc zero))))) = "5"
digit (suc (suc (suc (suc (suc (suc zero)))))) = "6"
digit (suc (suc (suc (suc (suc (suc (suc zero))))))) = "7"
digit (suc (suc (suc (suc (suc (suc (suc (suc zero)))))))) = "8"
digit (suc (suc (suc (suc (suc (suc (suc (suc (suc n))))))))) = "9"

unfoldable pub digits_onto : ℕ → ℕ → String → String
digits_onto zero n rest = rest
digits_onto (suc fuel) n rest =
    let text = String.◌∷◌ (digit (n % 10)) rest in
    let more = digits_onto fuel (n / 10) text in if ltb n 10 then text else more

unfoldable pub display_i64 : ℤ → String
unfolding digits_onto
display_i64 (pos n) = digits_onto 20 n ""
display_i64 (negsuc n) = String.◌∷◌ "-" (digits_onto 20 (suc n) "")

-- `format!(r#"{{"data":{},"message":"{}","status":200}}"#, epoch_ms, message)`
unfoldable pub time_json : ℤ → String → String
unfolding display_i64
time_json epoch_ms message = String.◌++◌ "{\"data\":" (
    String.◌++◌ (display_i64 epoch_ms)
      (String.◌++◌ ",\"message\":\"" (String.◌++◌ message "\",\"status\":200}")))

pub record TimeCache : Type 0 where
  pub epoch_ms : ℤ  -- i64
  pub json_fresh : String
  pub json_stale : String
  pub last_update : ℤ  -- i64
  pub start_instant : Instant
  pub message_ok : String
  pub message_ok_cache : String

unfoldable pub new : Instant → String → String → TimeCache
new now message_ok message_ok_cache =
    let initial_json : String = "{\"message\":\"initializing\",\"status\":503}" in
    record {
      epoch_ms = pos 0;
      json_fresh = initial_json;
      json_stale = initial_json;
      last_update = pos 0;
      start_instant = now;
      message_ok = message_ok;
      message_ok_cache = message_ok_cache;
    }

-- Both texts are written, whatever `is_stale` is.
unfoldable pub update : Instant → ℤ → Bool → TimeCache → TimeCache
update now epoch_ms is_stale c = record c {
  epoch_ms = epoch_ms;
  last_update = wrap_i64 (pos (as_millis (now - c.start_instant)));
  json_fresh = time_json epoch_ms c.message_ok;
  json_stale = time_json epoch_ms c.message_ok_cache;
}

unfoldable pub get_json : Bool → TimeCache → String
get_json is_stale c = if is_stale then c.json_stale else c.json_fresh
