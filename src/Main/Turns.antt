-- ===== src/Main/Turns.antt =====
-- src/main.rs: what one turn of the sync loop leaves behind.
use ntp_time_json_api.Common.{
  ℕ, ◌+◌, ◌≡◌, refl, true, Option, none, some, arith, if◌then◌else◌, u32,
}
use ntp_time_json_api.Common.Float.{Float}
use ntp_time_json_api.TimeBase
use ntp_time_json_api.TimeBase.{TimeBase, has_synced, is_manual_active, update, serve}
use ntp_time_json_api.Selection.Select.{SelectionDiagnostics}
use ntp_time_json_api.Sync.Round.{SyncOutcome, SyncEnd, selection_panics, fails, succeeds}
use mathlib.Core.Option
use ntp_time_json_api.Metrics.{Metrics}
use ntp_time_json_api.Persist.{PersistedState}
use ntp_time_json_api.State.{AppState, compute_quality, record_sync_success, record_sync_failure}
use ntp_time_json_api.Main.{
  TurnReadings, quality_of, on_outcome, on_failure, set_staleness, sync_turn,
}

-- The expiry of an override that the quality finds leaves the base of the NTP time.
pub manual_keeps_base :
    (now : ℕ) (tb : TimeBase)
    → (has_synced (is_manual_active now tb).0 ≡ has_synced tb)
      × ((is_manual_active now tb).0.base_epoch_ms ≡ tb.base_epoch_ms)
unfolding is_manual_active has_synced
manual_keeps_base now tb = ground arith

module _ {F : Type 0} ⦃fl : Float F⦄ where
  -- What a turn leaves of the state `s`, by the end of its round.
  pub record Renewed (at : TurnReadings) (o : SyncOutcome F) (s s' : AppState F)
      (to_save : Option (PersistedState F)) : Type 0 where
    pub synced : has_synced s'.timebase ≡ true
    pub base_epoch : s'.timebase.base_epoch_ms ≡ o.result.epoch_ms
    pub failures : s'.consecutive_failures ≡ 0
    pub synced_at : s'.last_sync_time ≡ some at.at_success
    pub last_quality : s'.last_sync_quality ≡ some (quality_of at.at_sync o.result o.jitter_ms)
    pub diagnostics : s'.last_selection_diagnostics ≡ some o.diagnostics
    pub override : s'.override_state ≡ s.override_state
    pub settings : s'.config ≡ s.config
    pub saves :
        Option.map (λ (p : PersistedState F). p.saved_epoch_ms) to_save
        ≡ (if s.config.persist.enabled then some o.result.epoch_ms else none)

  pub record Unrenewed (s s' : AppState F) (to_save : Option (PersistedState F)) : Type 0 where
    pub timebase : s'.timebase ≡ s.timebase
    pub failures : s'.consecutive_failures ≡ u32 (s.consecutive_failures + 1)
    pub synced_at : s'.last_sync_time ≡ s.last_sync_time
    pub last_quality : s'.last_sync_quality ≡ s.last_sync_quality
    pub override : s'.override_state ≡ s.override_state
    pub settings : s'.config ≡ s.config
    pub saves_none : to_save ≡ none

  abbrev pub Turned :
      TurnReadings
      → SyncEnd F
      → AppState F
      → Option (AppState F × Option (PersistedState F))
      → Type 0
  Turned at selection_panics s r = r ≡ none
  Turned at (fails e) s none = ⊥
  Turned at (fails e) s (some (s', to_save)) = Unrenewed s s' to_save
  Turned at (succeeds o) s none = ⊥
  Turned at (succeeds o) s (some (s', to_save)) = Renewed at o s s' to_save

  Renewed-set_staleness :
      (at : TurnReadings) (o : SyncOutcome F) (staleness : Option ℕ) (s s' : AppState F)
      (to_save : Option (PersistedState F))
      → Renewed at o s s' to_save
      → Renewed at o s (set_staleness staleness s') to_save
  Renewed-set_staleness at o none s s' to_save h = h
  Renewed-set_staleness at o (some x) s s' to_save h = record {
    synced = h.synced;
    base_epoch = h.base_epoch;
    failures = h.failures;
    synced_at = h.synced_at;
    last_quality = h.last_quality;
    diagnostics = h.diagnostics;
    override = h.override;
    settings = h.settings;
    saves = h.saves;
  }

  on_outcome-Renewed :
      (at : TurnReadings) (o : SyncOutcome F) (m : Metrics F) (s : AppState F)
      → Renewed at o s
          (on_outcome at o (record s { metrics = m })).0
          (on_outcome at o (record s { metrics = m })).1
  unfolding on_outcome compute_quality record_sync_success update has_synced
  on_outcome-Renewed at o m s =
      let tb = TimeBase.update at.at_update o.result s.timebase in
      let kept = manual_keeps_base at.at_quality.at_manual tb in
      record {
        synced = kept.0;
        base_epoch = kept.1;
        failures = refl;
        synced_at = refl;
        last_quality = refl;
        diagnostics = refl;
        override = refl;
        settings = refl;
        saves = ground arith;
      }

  on_failure-Unrenewed :
      (last_diagnostics : Option (SelectionDiagnostics F)) (m : Metrics F) (s : AppState F)
      → Unrenewed s (on_failure last_diagnostics (record s { metrics = m })) none
  unfolding on_failure record_sync_failure
  on_failure-Unrenewed none m s = record {
    timebase = refl;
    failures = refl;
    synced_at = refl;
    last_quality = refl;
    override = refl;
    settings = refl;
    saves_none = refl;
  }
  on_failure-Unrenewed (some diag) m s = record {
    timebase = refl;
    failures = refl;
    synced_at = refl;
    last_quality = refl;
    override = refl;
    settings = refl;
    saves_none = refl;
  }

  Unrenewed-set_staleness :
      (staleness : Option ℕ) (s s' : AppState F)
      → Unrenewed s s' none
      → Unrenewed s (set_staleness staleness s') none
  Unrenewed-set_staleness none s s' h = h
  Unrenewed-set_staleness (some x) s s' h = record {
    timebase = h.timebase;
    failures = h.failures;
    synced_at = h.synced_at;
    last_quality = h.last_quality;
    override = h.override;
    settings = h.settings;
    saves_none = h.saves_none;
  }

  -- A turn after a good round takes the round's epoch for the base of the time, sets the failures
  -- back to 0, keeps what the round measured and saves its epoch if saving is on. After a failed
  -- round the time base, the last quality and the override are as before, one more failure is
  -- counted and nothing is saved. A selection that panics ends the task.
  pub sync_turn-Turned :
      (at : TurnReadings) (end : SyncEnd F) (last_diagnostics : Option (SelectionDiagnostics F))
      (s : AppState F)
      → Turned at end s (sync_turn at end last_diagnostics s)
  unfolding sync_turn
  sync_turn-Turned at selection_panics last_diagnostics s = refl
  sync_turn-Turned at (fails e) last_diagnostics s =
      Unrenewed-set_staleness _ s _ (on_failure-Unrenewed last_diagnostics _ s)
  sync_turn-Turned at (succeeds o) last_diagnostics s =
      Renewed-set_staleness at o _ s _ _ (on_outcome-Renewed at o _ s)
