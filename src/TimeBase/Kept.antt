-- ===== src/TimeBase/Kept.antt =====
-- src/timebase.rs: what the operations leave of a time base that was synced.
use ntp_time_json_api.Common.{ℕ, ◌≡◌, refl, true, arith}
use ntp_time_json_api.Common.Int.{ℤ}
use ntp_time_json_api.Samples.{Instant, SyncResult}
use ntp_time_json_api.TimeBase.{
  TimeBase, update, has_synced, now_ms, ntp_path, serve, is_manual_active, ntp_base_now_ms,
  set_manual, clear_manual, manual_age_ms,
}

-- A time base that was synced stays so.
abbrev pub KeepsSynced : TimeBase → TimeBase → Type 0
KeepsSynced tb tb' = has_synced tb ≡ true → has_synced tb' ≡ true

pub now_ms-KeepsSynced : (now : Instant) (tb : TimeBase) → KeepsSynced tb (now_ms now tb).0
unfolding has_synced now_ms ntp_path serve
now_ms-KeepsSynced now tb h = ground (arith, h)

pub is_manual_active-KeepsSynced :
    (now : Instant) (tb : TimeBase) → KeepsSynced tb (is_manual_active now tb).0
unfolding has_synced is_manual_active
is_manual_active-KeepsSynced now tb h = ground (arith, h)

pub ntp_base_now_ms-KeepsSynced :
    (now : Instant) (tb : TimeBase) → KeepsSynced tb (ntp_base_now_ms now tb).0
unfolding has_synced ntp_base_now_ms
ntp_base_now_ms-KeepsSynced now tb h = ground (arith, h)

pub set_manual-KeepsSynced :
    (now : Instant) (epoch_ms : ℤ) (ttl_secs : ℕ) (tb : TimeBase)
    → KeepsSynced tb (set_manual now epoch_ms ttl_secs tb)
unfolding has_synced set_manual
set_manual-KeepsSynced now epoch_ms ttl_secs tb h = h

pub clear_manual-KeepsSynced : (tb : TimeBase) → KeepsSynced tb (clear_manual tb)
unfolding has_synced clear_manual
clear_manual-KeepsSynced tb h = h

pub update-KeepsSynced :
    (now : Instant) (r : SyncResult) (tb : TimeBase) → KeepsSynced tb (update now r tb)
unfolding has_synced update
update-KeepsSynced now r tb h = refl

pub manual_age_ms-KeepsSynced :
    (now : Instant) (tb : TimeBase) → KeepsSynced tb (manual_age_ms now tb).0
unfolding has_synced manual_age_ms
manual_age_ms-KeepsSynced now tb h = h
