-- ===== src/Stats/Health.antt =====
-- src/ntp/stats.rs: when a server is disabled and enabled again.
use ntp_time_json_api.Common.{
  ℕ, suc, ◌+◌, ◌^◌, ◌<◌, ◌≡◌, refl, true, false, not, ◌&&◌, List, [], ◌∷◌, arith, leb,
  if◌then◌else◌, length,
}
use ntp_time_json_api.Samples.{Instant, Duration}
use ntp_time_json_api.Stats.{ServerStats, record_success, record_failure, is_healthy}

-- Failures at the instants of the list, with nothing in between.
unfoldable pub fail_all : ℕ → List Instant → ServerStats → ServerStats
fail_all limit [] s = s
fail_all limit (now ∷ later) s = fail_all limit later (record_failure now limit s).0

-- How many of them report that they disable the server.
unfoldable pub reports : ℕ → List Instant → ServerStats → ℕ
reports limit [] s = 0
reports limit (now ∷ later) s =
    (if (record_failure now limit s).1 then 1 else 0)
    + reports limit later (record_failure now limit s).0

record_failure_lem :
    (now : Instant) (limit : ℕ) (s : ServerStats)
    → s.consecutive_failures + 1 < 2 ^ 32
    → let (s', just_disabled) = record_failure now limit s in
      (s'.consecutive_failures ≡ s.consecutive_failures + 1)
      × (is_healthy s' ≡ (is_healthy s && not (leb limit (s.consecutive_failures + 1))))
      × (just_disabled ≡ (is_healthy s && leb limit (s.consecutive_failures + 1)))
unfolding record_failure is_healthy
record_failure_lem now limit s h = ground arith

-- A server that fails again and again is healthy just as long as it was healthy before and the
-- number of failures in a row is below the threshold.
pub is_healthy-fail_all :
    (limit : ℕ) (now : Instant) (later : List Instant) (s : ServerStats)
    → s.consecutive_failures + suc (length later) < 2 ^ 32
    → is_healthy (fail_all limit (now ∷ later) s)
      ≡ (is_healthy s && not (leb limit (s.consecutive_failures + suc (length later))))
unfolding fail_all
is_healthy-fail_all limit now [] s h = ground (arith, record_failure_lem now limit s (omega arith))
is_healthy-fail_all limit now (t ∷ ts) s h =
    let s' = (record_failure now limit s).0 in
    let e = record_failure_lem now limit s (omega arith) in
    ground (arith, e, is_healthy-fail_all limit t ts s' (omega (arith, e.0)))

stays_disabled :
    (limit : ℕ) (times : List Instant) (s : ServerStats)
    → is_healthy s ≡ false
    → (is_healthy (fail_all limit times s) ≡ false) × (reports limit times s ≡ 0)
unfolding fail_all reports record_failure is_healthy
stays_disabled limit [] s h = (h, refl)
stays_disabled limit (t ∷ ts) s h =
    ground (arith, stays_disabled limit ts (record_failure t limit s).0 (ground arith))

-- The failure that disables the server, and no other, reports it.
reports-fail_all :
    (limit : ℕ) (times : List Instant) (s : ServerStats)
    → s.consecutive_failures + length times < 2 ^ 32
    → reports limit times s
      ≡ (if is_healthy s && not (is_healthy (fail_all limit times s)) then 1 else 0)
unfolding fail_all reports
reports-fail_all limit [] s h = ground arith
reports-fail_all limit (t ∷ ts) s h =
    let s' = (record_failure t limit s).0 in
    let e = record_failure_lem t limit s (omega arith) in
    ground (arith, e, reports-fail_all limit ts s' (omega (arith, e.0)), stays_disabled limit ts s')

-- One success enables a server again, says whether it was disabled, and starts the count anew:
-- the next failures disable it only when they alone reach the threshold.
record_success-fail_all :
    (limit : ℕ) (now : Instant) (rtt : Duration) (first : Instant) (later : List Instant)
    (s : ServerStats)
    → suc (length later) < 2 ^ 32
    → let (s', was_disabled) = record_success now rtt s in
      (was_disabled ≡ not (is_healthy s))
      × (is_healthy s' ≡ true)
      × (is_healthy (fail_all limit (first ∷ later) s') ≡ not (leb limit (suc (length later))))
unfolding record_success
record_success-fail_all limit now rtt first later s h =
    let s' = (record_success now rtt s).0 in
    (
      unfold is_healthy in ground arith,
      unfold is_healthy in refl,
      ground (arith, is_healthy-fail_all limit first later s' (omega arith), enabled),
    )
  where
    enabled : is_healthy (record_success now rtt s).0 ≡ true
    enabled = unfold is_healthy in refl
