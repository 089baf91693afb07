-- ===== src/TimeBase/Served.antt =====
-- src/timebase.rs: the time that follows from an update, and what the lazy reference costs.
use ntp_time_json_api.Common.{ℕ, ◌-◌, ◌/◌, ◌^◌, ◌≤◌, ◌<◌, max, ◌≡◌, ap, ◌∙◌, none, some, arith, u64}
use ntp_time_json_api.Common.Int.{ℤ, pos, ◌+i64◌, ◌+ℤ◌, ◌≤ℤ◌, InI64, wrap_i64_of_InI64, +ℤ_parts}
use ntp_time_json_api.Samples.{Instant, SyncResult}
use ntp_time_json_api.TimeBase.{TimeBase, reference_at, update, ntp_base_now_ms}

module _ (s : TimeBase) (r : SyncResult) (at now : Instant) where
  -- After an update at `at` the time runs on from the epoch of the sync result, counted from the
  -- instant of that result or from the reference, whichever is later, as long as the clock stays
  -- within 2^64 ns of the reference.
  pub ntp_base_now_ms-update :
      at ≤ now
      → r.instant ≤ at
      → reference_at at s ≤ at
      → now - reference_at at s < 2 ^ 64
      → (ntp_base_now_ms now (update at r s)).1
        ≡ some (r.epoch_ms +i64 pos ((now - max r.instant (reference_at at s)) / 1_000_000))
  unfolding ntp_base_now_ms update
  ntp_base_now_ms-update h i f l =
      let ref = reference_at at s in
      let elapsed : u64 (now - ref) - u64 (r.instant - ref) ≡ now - max r.instant ref =
        omega arith in
      ap (λ (n : ℕ). some (r.epoch_ms +i64 pos (n / 1_000_000))) elapsed

  -- Where the first update is also what starts the reference, the time runs behind the time of the
  -- sync result by all the milliseconds that went by between its instant and the update.
  pub first_update_lags :
      at ≤ now
      → r.instant ≤ at
      → s.reference_instant ≡ none
      → now - at < 2 ^ 64
      → InI64 (r.epoch_ms +ℤ pos ((now - at) / 1_000_000))
      → (t : ℤ) × ((ntp_base_now_ms now (update at r s)).1 ≡ some t)
        × (t +ℤ pos ((at - r.instant) / 1_000_000)
            ≤ℤ r.epoch_ms +ℤ pos ((now - r.instant) / 1_000_000))
  unfolding ◌+i64◌
  first_update_lags h i unset l fits =
      let t = r.epoch_ms +ℤ pos ((now - at) / 1_000_000) in
      let starts : reference_at at s ≡ at = rw unset in
      let lag = (at - r.instant) / 1_000_000 in
      let whole = (now - r.instant) / 1_000_000 in
      (
        t,
        ntp_base_now_ms-update h i (omega (arith, starts)) (omega (arith, starts))
            ∙ ap (λ (b : ℕ). some (r.epoch_ms +i64 pos ((now - b) / 1_000_000)))
                (omega (arith, starts))
            ∙ ap some (wrap_i64_of_InI64 t fits),
        omega (
          arith,
          +ℤ_parts r.epoch_ms (pos ((now - at) / 1_000_000)),
          +ℤ_parts t (pos lag),
          +ℤ_parts r.epoch_ms (pos whole),
        ),
      )
