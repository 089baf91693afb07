-- ===== src/Tests/Starting.antt =====
-- src/persist.rs and src/main.rs: a state that is saved and loaded at concrete inputs.
use ntp_time_json_api.Common.{
  ◌+◌, ◌-◌, ◌/◌, ◌≡◌, refl, true, some, none, [], String, if◌then◌else◌, Result, ok, arith,
}
use ntp_time_json_api.Common.Int.{ℤ, pos}
use ntp_time_json_api.Common.Float.{int_float}
use ntp_time_json_api.TimeBase
use ntp_time_json_api.TimeBase.{ntp_base_now_ms}
use ntp_time_json_api.State
use ntp_time_json_api.State.{AppState, TimeQuality, compute_quality}
use ntp_time_json_api.Persist.{PersistedState, Attempt, save_state, load_state}
use ntp_time_json_api.Persist.Atomic.{saved, load_state-save_state}
use ntp_time_json_api.Main.{persisted_of}
use ntp_time_json_api.Main.Restart.{restore, save_state-restore}
use ntp_time_json_api.Tests.States.{state, late, fresh}
use ntp_time_json_api.Tests.Rounds.{outcome}

abbrev measured_quality : TimeQuality ℤ
measured_quality = (compute_quality late state).1

abbrev state_of_round : PersistedState ℤ
state_of_round = persisted_of (pos 100_026_000_000) outcome.result measured_quality

abbrev to_json : PersistedState ℤ → Result String String
to_json persisted = ok "{}"

abbrev from_json : String → Result (PersistedState ℤ) String
from_json json = ok state_of_round

abbrev attempt : Attempt
attempt = record { write_fails_with = none; renames = true }

load_state-save_state_example :
    load_state from_json true "state.json"
      (save_state to_json "state.json" state_of_round attempt []).0
    ≡ (if saved (save_state to_json "state.json" state_of_round attempt []).1
        then ok (some state_of_round)
        else load_state from_json true "state.json" [])
load_state-save_state_example =
    load_state-save_state to_json from_json "state.json" [] attempt state_of_round (λ json e. refl)

-- A process that has not used its reference instant yet.
abbrev restarted : AppState ℤ
restarted = record fresh { timebase = TimeBase.new none true }

was_saved : saved (save_state to_json "state.json" state_of_round attempt []).1 ≡ true
unfolding save_state
was_saved = refl

save_state-restore_example :
    (ntp_base_now_ms 1_500_000_000
      (restore 1_000_000 2_000_000
        (pos 160_026_000_000)
        (load_state from_json true "state.json"
          (save_state to_json "state.json" state_of_round attempt []).0)
        restarted).timebase).1
    ≡ some (
        pos (
          100_024
          + (160_026_000_000 / 1_000_000 - 100_026_000_000 / 1_000_000)
          + (1_500_000_000 - 2_000_000) / 1_000_000))
unfolding State.new TimeBase.new
save_state-restore_example =
    save_state-restore to_json from_json "state.json" [] attempt outcome.result measured_quality
      restarted 100_024 100_026_000_000 160_026_000_000 1_000_000 2_000_000 1_500_000_000
      (λ json e. refl) refl was_saved refl refl (omega arith) (omega arith) (omega arith)
      (omega arith) (omega arith) (omega arith)
