-- ===== src/TimeBase.antt =====
-- src/timebase.rs: the monotonic time base and the manual override.
-- The atomics are fields of one record, and the static REFERENCE_INSTANT is one more: `none` until
-- something dereferences it, since a `Lazy` takes its value at its first use. Each operation runs
-- alone and reads the clock once, `now`. The JSON cache that `with_cache` stores is used by no
-- operation and is left out.
pub mod Served
pub mod Monotonic
pub mod Override
pub mod Kept
use ntp_time_json_api.Common.{
  ℕ, ◌-◌, ◌*◌, ◌/◌, Bool, true, false, Option, none, some, ltb, leb, if◌then◌else◌, u64,
  saturating_add, saturating_mul,
}
use mathlib.Core.Option.{get_or}
use ntp_time_json_api.Common.Int.{ℤ, pos, leb_ℤ, ◌+i64◌}
use ntp_time_json_api.Samples.{Instant, SyncResult}

pub record TimeBase : Type 0 where
  pub reference_instant : Option Instant
  pub base_epoch_ms : ℤ  -- i64
  pub base_instant_nanos : ℕ  -- u64
  pub last_served_ms : ℤ  -- i64
  pub monotonic_output : Bool
  pub synced : Bool
  pub manual_active : Bool
  pub manual_base_epoch_ms : ℤ  -- i64
  pub manual_base_instant_nanos : ℕ  -- u64
  pub manual_expires_at_nanos : ℕ  -- u64

unfoldable pub new : Option Instant → Bool → TimeBase
new reference monotonic_output = record {
  reference_instant = reference;
  base_epoch_ms = pos 0;
  base_instant_nanos = 0;
  last_served_ms = pos 0;
  monotonic_output = monotonic_output;
  synced = false;
  manual_active = false;
  manual_base_epoch_ms = pos 0;
  manual_base_instant_nanos = 0;
  manual_expires_at_nanos = 0;
}

-- `*REFERENCE_INSTANT`, dereferenced at `now`: its value, and the state after it.
abbrev pub reference_at : Instant → TimeBase → Instant
reference_at now s = get_or s.reference_instant now

abbrev pub force_reference : Instant → TimeBase → TimeBase
force_reference now s = record s { reference_instant = some (reference_at now s) }

-- `t.duration_since(*REFERENCE_INSTANT).as_nanos() as u64`: 0 if `t` lies before the reference.
abbrev pub nanos_at : Instant → TimeBase → Instant → ℕ
nanos_at now s t = u64 (t - reference_at now s)

unfoldable pub update : Instant → SyncResult → TimeBase → TimeBase
update now sync_result s = record (force_reference now s) {
  base_epoch_ms = sync_result.epoch_ms;
  base_instant_nanos = nanos_at now s sync_result.instant;
  synced = true;
}

-- The clamp and the store at the end of each path of `now_ms`.
unfoldable pub serve : ℤ → TimeBase → TimeBase × Option ℤ
serve current_ms s =
    if s.monotonic_output
    then (let served =
          if leb_ℤ current_ms s.last_served_ms then s.last_served_ms +i64 pos 1 else current_ms in
        (record s { last_served_ms = served }, some served))
    else (s, some current_ms)

-- `base_epoch + elapsed_ms`, with `now_nanos.saturating_sub(base_nanos) / 1_000_000`.
abbrev pub advanced : ℤ → ℕ → ℕ → ℤ
advanced base_epoch base_nanos now_nanos =
    base_epoch +i64 pos ((now_nanos - base_nanos) / 1_000_000)

unfoldable pub ntp_path : Instant → TimeBase → TimeBase × Option ℤ
ntp_path now s =
    if s.synced
    then serve (advanced s.base_epoch_ms s.base_instant_nanos (nanos_at now s now))
        (force_reference now s)
    else (s, none)

unfoldable pub now_ms : Instant → TimeBase → TimeBase × Option ℤ
now_ms now s =
    if s.manual_active
    then (let now_nanos = nanos_at now s now in
        let s' = force_reference now s in
        if ltb now_nanos s.manual_expires_at_nanos
        then serve (advanced s.manual_base_epoch_ms s.manual_base_instant_nanos now_nanos) s'
        else ntp_path now (record s' { manual_active = false }))
    else ntp_path now s

unfoldable pub has_synced : TimeBase → Bool
has_synced s = s.synced

unfoldable pub set_manual : Instant → ℤ → ℕ → TimeBase → TimeBase
set_manual now epoch_ms ttl_secs s =
    let base_nanos = nanos_at now s now in
    record (force_reference now s) {
      manual_base_epoch_ms = epoch_ms;
      manual_base_instant_nanos = base_nanos;
      manual_expires_at_nanos = saturating_add base_nanos (saturating_mul ttl_secs 1_000_000_000);
      manual_active = true;
    }

unfoldable pub clear_manual : TimeBase → TimeBase
clear_manual s = record s { manual_active = false }

unfoldable pub is_manual_active : Instant → TimeBase → TimeBase × Bool
is_manual_active now s =
    if s.manual_active
    then (let s' = force_reference now s in
        if leb s.manual_expires_at_nanos (nanos_at now s now)
        then (record s' { manual_active = false }, false)
        else (s', true))
    else (s, false)

unfoldable pub ntp_base_now_ms : Instant → TimeBase → TimeBase × Option ℤ
ntp_base_now_ms now s =
    if s.synced
    then (
      force_reference now s,
      some (advanced s.base_epoch_ms s.base_instant_nanos (nanos_at now s now)),
    )
    else (s, none)

unfoldable pub manual_age_ms : Instant → TimeBase → TimeBase × ℕ
manual_age_ms now s =
    (force_reference now s, (nanos_at now s now - s.manual_base_instant_nanos) / 1_000_000)
