-- ===== src/Main/Restart.antt =====
-- src/main.rs: the state that a start takes from disk.
use ntp_time_json_api.Common.{
  ℕ, ◌+◌, ◌-◌, ◌/◌, ◌^◌, ◌≤◌, ◌<◌, ◌≡◌, refl, ap, ◌∙◌, true, Option, none, some, String,
  if◌then◌else◌, Result, ok, err, u32_max, min, max, arith,
}
use mathlib.Core.Option.{get_or}
use ntp_time_json_api.Common.Int.{pos, saturating_sub_i64, ◌+i64◌}
use ntp_time_json_api.Common.Float.{Float}
use ntp_time_json_api.Samples.{Instant, SyncResult, estimated}
use ntp_time_json_api.Client.{SystemTime, system_time_unix_ms}
use ntp_time_json_api.TimeBase
use ntp_time_json_api.TimeBase.{TimeBase, reference_at, ntp_base_now_ms}
use ntp_time_json_api.TimeBase.Served.{ntp_base_now_ms-update}
use ntp_time_json_api.Persist.{PersistedState, PersistError, Disk, Attempt, save_state, load_state}
use ntp_time_json_api.Persist.Atomic.{saved, load_state-save_state}
use ntp_time_json_api.State.{AppState, TimeQuality}
use ntp_time_json_api.Main.{persisted_of}

+i64_pos : (a b : ℕ) → a + b < 2 ^ 63 → pos a +i64 pos b ≡ pos (a + b)
unfolding ◌+i64◌
+i64_pos a b w = ground arith

module _ {F : Type 0} ⦃fl : Float F⦄ where
  -- The seed that a start takes from a persisted state.
  abbrev pub persisted_seed : Instant → SystemTime → PersistedState F → SyncResult
  persisted_seed now system persisted =
      let elapsed_ms = saturating_sub_i64 (system_time_unix_ms system) persisted.saved_at_unix_ms in
      let effective_epoch_ms = persisted.saved_epoch_ms +i64 elapsed_ms in
      record {
        epoch_ms = effective_epoch_ms;
        server = get_or persisted.selected_server "persisted";
        rtt = 0;
        instant = now;
        offset_ms = pos 0;
        t1_client_send_ms = effective_epoch_ms;
        t2_server_recv_ms = effective_epoch_ms;
        t3_server_send_ms = effective_epoch_ms;
        t4_client_recv_ms = effective_epoch_ms;
        root_delay_ms = 0;
        root_dispersion_ms =
            min (fl.to_u64 (get_or persisted.uncertainty_ms (fl.of_int (pos 1000)))) u32_max;
        stratum = 2;
        leap = 0;
        precision_log2 = pos 0;
        reference_id = 0x4C4F4144;
        timing_source = estimated;
      }

  -- The part of `main` that loads the state: `now` is the instant of the seed, `at` the update's.
  unfoldable pub restore :
      {JsonError : Type 0}
      → Instant
      → Instant
      → SystemTime
      → Result (Option (PersistedState F)) (PersistError JsonError)
      → AppState F
      → AppState F
  restore now at system loaded s =
      if s.config.persist.enabled
      then elim loaded [
        | err e ↦ s
        | ok none ↦ s
        | ok (some persisted) ↦ record s {
          timebase = TimeBase.update at (persisted_seed now system persisted) s.timebase;
        }
      ]
      else s

  -- The epoch of the seed, where nothing overflows.
  persisted_seed-epoch_ms :
      (result : SyncResult) (quality : TimeQuality F) (start epoch saved_at restarted_at : ℕ)
      → result.epoch_ms ≡ pos epoch
      → saved_at ≤ restarted_at
      → restarted_at / 1_000_000 < 2 ^ 61
      → epoch < 2 ^ 61
      → (persisted_seed start
          (pos restarted_at)
          (persisted_of (pos saved_at) result quality)).epoch_ms
        ≡ pos (epoch + (restarted_at / 1_000_000 - saved_at / 1_000_000))
  unfolding saturating_sub_i64 ◌+i64◌ system_time_unix_ms
  persisted_seed-epoch_ms result quality start epoch saved_at restarted_at e forward w f =
      rw e (ground arith)

  restored_time :
      (JsonError : Type 0) (persisted : PersistedState F) (system : SystemTime) (s : AppState F)
      (start at now : Instant)
      → s.config.persist.enabled ≡ true
      → s.timebase.reference_instant ≡ none
      → start ≤ at
      → at ≤ now
      → now - at < 2 ^ 64
      → (ntp_base_now_ms now
          (restore {JsonError = JsonError} start at system (ok (some persisted)) s).timebase).1
        ≡ some ((persisted_seed start system persisted).epoch_ms +i64 pos ((now - at) / 1_000_000))
  unfolding restore
  restored_time JsonError persisted system s start at now enabled lazy i n l =
      let seed = persisted_seed start system persisted in
      let reference : reference_at at s.timebase ≡ at = rw lazy refl in
      let latest : max start (reference_at at s.timebase) ≡ at = omega (arith, reference) in
      rw enabled (
        ntp_base_now_ms-update s.timebase seed at now n i (omega (arith, reference))
          (omega (arith, reference))
        ∙ rw latest refl)

  -- Where the save succeeds and the parser gives back what the serializer wrote, the next process,
  -- whose first use of the reference instant is this update, tells the epoch of the saved sync plus
  -- the wall-clock time that went by between save and start plus, from the update on, what its
  -- monotonic clock counts, in milliseconds. The wall clock does not run back, the update comes
  -- within 2^64 ns, and the epoch and the times are below 2^61 ms.
  pub save_state-restore :
      {JsonError : Type 0} (to_json : PersistedState F → Result String JsonError)
      (from_json : String → Result (PersistedState F) JsonError) (path : String) (d : Disk)
      (attempt : Attempt) (result : SyncResult) (quality : TimeQuality F) (s : AppState F)
      (epoch saved_at restarted_at : ℕ) (start at now : Instant)
      → ((json : String)
          → to_json (persisted_of (pos saved_at) result quality) ≡ ok json
          → from_json json ≡ ok (persisted_of (pos saved_at) result quality))
      → result.epoch_ms ≡ pos epoch
      → saved (save_state to_json path (persisted_of (pos saved_at) result quality) attempt d).1
        ≡ true
      → s.config.persist.enabled ≡ true
      → s.timebase.reference_instant ≡ none
      → saved_at ≤ restarted_at
      → start ≤ at
      → at ≤ now
      → now - at < 2 ^ 64
      → restarted_at / 1_000_000 < 2 ^ 61
      → epoch < 2 ^ 61
      → (ntp_base_now_ms now
          (restore start at
            (pos restarted_at)
            (load_state from_json true path
              (save_state to_json path (persisted_of (pos saved_at) result quality) attempt d).0)
            s).timebase).1
        ≡ some (
            pos
              (epoch + (restarted_at / 1_000_000 - saved_at / 1_000_000) + (now - at) / 1_000_000))
  save_state-restore {JsonError} to_json from_json path d attempt result quality s epoch saved_at
        restarted_at start at now inverse e ok_saved enabled lazy forward i n l w f =
      let state = persisted_of (pos saved_at) result quality in
      let loaded : load_state from_json true path (save_state to_json path state attempt d).0
          ≡ ok (some state) =
        load_state-save_state to_json from_json path d attempt state inverse ∙ (rw ok_saved refl) in
      let seed =
        persisted_seed-epoch_ms result quality start epoch saved_at restarted_at e forward w f in
      rw loaded (
        restored_time JsonError state (pos restarted_at) s start at now enabled lazy i n l
        ∙ (rw seed (
            ap some (
              +i64_pos (epoch + (restarted_at / 1_000_000 - saved_at / 1_000_000))
                ((now - at) / 1_000_000) (ground arith)))))
