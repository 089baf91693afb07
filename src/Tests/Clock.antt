-- ===== src/Tests/Clock.antt =====
-- src/timebase.rs at concrete inputs.
use ntp_time_json_api.Common.{
  ◌+◌, ◌-◌, ◌*◌, ◌/◌, ◌≡◌, refl, true, false, none, some, List, [], ◌∷◌, All, arith, ltb,
  if◌then◌else◌, max,
}
use ntp_time_json_api.Common.Int.{ℤ, pos, negsuc, ◌+i64◌, ◌+ℤ◌, ◌≤ℤ◌, ◌<ℤ◌, InI64}
use ntp_time_json_api.Samples.{Instant, SyncResult, measured}
use ntp_time_json_api.TimeBase.{
  TimeBase, update, serve, ntp_path, now_ms, set_manual, clear_manual, ntp_base_now_ms,
}
use ntp_time_json_api.TimeBase.Monotonic.{
  Call, calls_now, calls_update, calls_set_manual, calls_clear_manual, step, served, Ascends,
  served-Ascends, i64_max,
}
use ntp_time_json_api.TimeBase.Served.{ntp_base_now_ms-update, first_update_lags}
use ntp_time_json_api.TimeBase.Override.{clamped, now_ms-set_manual}

abbrev sync_at : Instant → ℤ → SyncResult
sync_at instant epoch_ms = record {
  epoch_ms = epoch_ms;
  server = "ntp.test:123";
  rtt = 20_000_000;
  instant = instant;
  offset_ms = pos 0;
  t1_client_send_ms = epoch_ms;
  t2_server_recv_ms = epoch_ms;
  t3_server_send_ms = epoch_ms;
  t4_client_recv_ms = epoch_ms;
  root_delay_ms = 0;
  root_dispersion_ms = 0;
  stratum = 1;
  leap = 0;
  precision_log2 = negsuc 19;
  reference_id = 0;
  timing_source = measured;
}

abbrev started : TimeBase
started = record {
  reference_instant = some 1_000_000;
  base_epoch_ms = pos 0;
  base_instant_nanos = 0;
  last_served_ms = pos 0;
  monotonic_output = true;
  synced = false;
  manual_active = false;
  manual_base_epoch_ms = pos 0;
  manual_base_instant_nanos = 0;
  manual_expires_at_nanos = 0;
}

abbrev unstarted : TimeBase
unstarted = record started { reference_instant = none }

-- A sync, two readings in the same millisecond, a sync that sets the time back, an override in the
-- past, and its end.
abbrev day : List (Instant × Call)
day =
    (2_000_000, calls_update (sync_at 2_000_000 (pos 5000)))
    ∷ (2_100_000, calls_now)
    ∷ (2_200_000, calls_now)
    ∷ (3_000_000, calls_update (sync_at 3_000_000 (pos 4000)))
    ∷ (3_100_000, calls_now)
    ∷ (4_000_000, calls_set_manual (pos 100) 60)
    ∷ (4_100_000, calls_now)
    ∷ (5_000_000, calls_clear_manual)
    ∷ (6_100_000_000, calls_now)
    ∷ []

day-served : served day started ≡ pos 5000 ∷ pos 5001 ∷ pos 5002 ∷ pos 5003 ∷ pos 10097 ∷ []
unfolding served step now_ms update set_manual clear_manual serve ntp_path ◌+i64◌
day-served = refl

below_max : All (λ t. t <ℤ i64_max) (served day started)
unfolding served step now_ms update set_manual clear_manual serve ntp_path ◌+i64◌
below_max = omega arith

served-Ascends_example : Ascends (pos 0) (served day started)
served-Ascends_example = served-Ascends day started (refl, omega arith, omega arith) below_max

now_ms-set_manual_example :
    (now_ms 4_000_000_000 (set_manual 2_000_000_000 (pos 9000) 1 started)).1 ≡ (
      if ltb 4_000_000_000 (2_000_000_000 + 1 * 1_000_000_000)
      then some (clamped started (pos 9000 +i64 pos ((4_000_000_000 - 2_000_000_000) / 1_000_000)))
      else (now_ms 4_000_000_000 (clear_manual started)).1)
now_ms-set_manual_example =
    now_ms-set_manual started 1_000_000 2_000_000_000 4_000_000_000 (pos 9000) 1 refl (omega arith)
      (omega arith) (omega arith) (omega arith)

ntp_base_now_ms-update_example :
    (ntp_base_now_ms 9_000_000_000
      (update 3_000_000_000 (sync_at 2_000_000_000 (pos 7000)) started)).1
    ≡ some (pos 7000 +i64 pos ((9_000_000_000 - max 2_000_000_000 1_000_000) / 1_000_000))
ntp_base_now_ms-update_example =
    ntp_base_now_ms-update started (sync_at 2_000_000_000 (pos 7000)) 3_000_000_000 9_000_000_000
      (omega arith) (omega arith) (omega arith) (omega arith)

fits : InI64 (pos 7000 +ℤ pos ((9_000_000_000 - 3_000_000_000) / 1_000_000))
unfolding ◌+ℤ◌
fits = omega arith

-- The update runs one second after its sync result: the time is one second late from then on.
first_update_lags_example :
    (t : ℤ) × ((ntp_base_now_ms 9_000_000_000
        (update 3_000_000_000 (sync_at 2_000_000_000 (pos 7000)) unstarted)).1
      ≡ some t)
    × (t +ℤ pos ((3_000_000_000 - 2_000_000_000) / 1_000_000)
        ≤ℤ pos 7000 +ℤ pos ((9_000_000_000 - 2_000_000_000) / 1_000_000))
first_update_lags_example =
    first_update_lags unstarted (sync_at 2_000_000_000 (pos 7000)) 3_000_000_000 9_000_000_000
      (omega arith) (omega arith) refl (omega arith) fits
