-- ===== src/Tests/Choosing.antt =====
-- src/ntp/selection.rs and src/ntp/sync.rs at concrete inputs.
use mathlib.Core.List.{Memᴰ}
use ntp_time_json_api.Common.{◌≡◌, refl, true, some, none, List, [], ◌∷◌, map, String, arith}
use ntp_time_json_api.Common.Int.{ℤ, pos, wrap_i64, ◌-i64◌}
use ntp_time_json_api.Common.Float.{int_float, number}
use ntp_time_json_api.Samples.{NtpResult}
use ntp_time_json_api.Selection.{SelectionConfig, JitterMap, gather}
use ntp_time_json_api.Selection.Select.{select}
use ntp_time_json_api.Selection.Gates.{IsGated}
use ntp_time_json_api.Selection.Accepted.{Choice, select-Choice}
use ntp_time_json_api.Marzullo.{marzullo_filter}
use ntp_time_json_api.Selection.Accounted.{Accounts, select-Accounts}
use ntp_time_json_api.Selection.Inside.{SpansRegion, select-SpansRegion}
use ntp_time_json_api.Sync.{sticky_select}
use ntp_time_json_api.Sync.Sticky.{Sticks, sticky_select-Sticks}
use ntp_time_json_api.Tests.Selecting.{candidate, candidates}

abbrev pub config : SelectionConfig ℤ
config = record {
  max_stratum = 4;
  min_quorum = 2;
  reject_leap_alarm = true;
  max_root_distance_ms = number (pos 500);
  max_sample_age_secs = 60;
  provider_group_max_fraction = number (pos 1);
  provider_groups = [];
  max_offset_skew_ms = pos 1000;
  interval_selection_enabled = true;
}

abbrev results : List NtpResult
results = map (λ c. c.result) candidates

abbrev jitters : JitterMap
jitters = ("ntp.test:123", 3) ∷ []

abbrev whole : String → String
whole server = server

select-Choice_example :
    Choice
      (λ c. IsGated config 90_000_000 jitters c × Memᴰ c.result results)
      config
      (select whole 90_000_000 results jitters config)
select-Choice_example = select-Choice whole 90_000_000 results jitters config (omega arith)

select-Accounts_example :
    Accounts config 90_000_000 jitters results (select whole 90_000_000 results jitters config)
select-Accounts_example = select-Accounts whole 90_000_000 results jitters config (omega arith)

select-SpansRegion_example :
    SpansRegion
      (λ c. IsGated config 90_000_000 jitters c × Memᴰ c.result results)
      whole
      config
      (marzullo_filter (gather config 90_000_000 jitters results).0 2)
      (select whole 90_000_000 results jitters config)
select-SpansRegion_example =
    select-SpansRegion whole config 90_000_000 results jitters refl (omega arith)

abbrev first : NtpResult
first = (candidate (pos 10) (pos 8)).result

-- The current server is 20 ms slower than the best one.
abbrev slower : NtpResult
slower = record first { server = "old.test:123"; rtt = 40_000_000 }

sticky_select-Sticks_example :
    Sticks
      (first ∷ slower ∷ [])
      first
      (some "old.test:123")
      50
      (sticky_select (first ∷ slower ∷ []) first (some "old.test:123") (pos 50))
sticky_select-Sticks_example =
    sticky_select-Sticks (first ∷ slower ∷ []) first (some "old.test:123") 50 (omega arith)
      (omega arith)

stays_with_slower :
    sticky_select (first ∷ slower ∷ []) first (some "old.test:123") (pos 50) ≡ (slower, none)
unfolding sticky_select wrap_i64 ◌-i64◌
stays_with_slower = refl
