-- ===== src/Main/Keeping.antt =====
-- src/http/handlers.rs, src/http/websocket.rs and src/main.rs: what requests, updates and turns of the
-- sync loop leave of the settings and of a synced time base.
use ntp_time_json_api.Common.{
  ℕ, if_intro, ◌≡◌, refl, ◌∙◌, ap, Option, none, some, String, arith, Result, ok, err, not, ◌&&◌,
}
use ntp_time_json_api.Common.Int.{ℤ}
use ntp_time_json_api.Common.Float.{Float}
use ntp_time_json_api.Samples.{Instant}
use ntp_time_json_api.TimeBase.{has_synced, now_ms}
use ntp_time_json_api.TimeBase.Kept.{KeepsSynced, now_ms-KeepsSynced, is_manual_active-KeepsSynced}
use ntp_time_json_api.Selection.Select.{SelectionDiagnostics}
use ntp_time_json_api.Sync.Round.{SyncEnd, selection_panics, fails, succeeds}
use ntp_time_json_api.State.{AppState, TimeQuality, QualityReadings, compute_quality}
use ntp_time_json_api.Responses.{Response, AppError}
use ntp_time_json_api.Handlers.{
  count_result, RequestReadings, refuses, time_handler, serve_time, serve_known,
  build_time_response, time_full_handler, readyz_handler,
}
use ntp_time_json_api.WebSocket.{Tick, on_time, next_update}
use ntp_time_json_api.Persist.{PersistedState}
use ntp_time_json_api.Main.{TurnReadings, sync_turn}
use ntp_time_json_api.Main.Turns.{Turned, sync_turn-Turned}

module _ {F : Type 0} ⦃fl : Float F⦄ where
  -- What is kept: the settings, and that the time base was synced.
  unfoldable pub Keeps : AppState F → AppState F → Type 0
  Keeps s s' = (s'.config ≡ s.config) × KeepsSynced s.timebase s'.timebase

  pub Keeps-refl : (s : AppState F) → Keeps s s
  unfolding Keeps
  Keeps-refl s = (refl, λ h. h)

  now_ms-Keeps :
      (t : Instant) (s : AppState F) → Keeps s (record s { timebase = (now_ms t s.timebase).0 })
  unfolding Keeps
  now_ms-Keeps t s = (refl, now_ms-KeepsSynced t s.timebase)

  count_result-Keeps :
      (at : RequestReadings) (r : Result (Response F) (AppError F)) (s : AppState F)
      → Keeps s (count_result at r s)
  unfolding Keeps
  count_result-Keeps at (ok response) s = (refl, λ h. h)
  count_result-Keeps at (err e) s = (refl, λ h. h)

  pub compute_quality-Keeps :
      (at : QualityReadings) (s : AppState F) → Keeps s (compute_quality at s).0
  unfolding compute_quality Keeps
  compute_quality-Keeps at s = (refl, is_manual_active-KeepsSynced at.at_manual s.timebase)

  serve_known-Keeps :
      (at : RequestReadings) (ms : ℤ) (q : TimeQuality F) (s : AppState F)
      → Keeps s (serve_known at ms q s).0
  unfolding serve_known build_time_response Keeps
  serve_known-Keeps at ms q s =
      if_intro (λ (x : AppState F × _). Keeps s x.0) (refuses s q) (refl, λ h. h) (refl, λ h. h)

  pub Keeps-trans : (a b c : AppState F) → Keeps a b → Keeps b c → Keeps a c
  unfolding Keeps
  Keeps-trans a b c (e, h) (e', h') = (e' ∙ e, λ x. h' (h x))

  serve_time-Keeps :
      (at : RequestReadings) (o : Option ℤ) (s : AppState F) → Keeps s (serve_time at o s).0
  unfolding serve_time
  serve_time-Keeps at none s =
      if_intro (λ (x : AppState F × _). Keeps s x.0) s.config.ntp.require_sync (Keeps-refl s)
        (compute_quality-Keeps at.at_quality s)
  serve_time-Keeps at (some ms) s =
      let (s', q) = compute_quality at.at_quality s in
      Keeps-trans s s' _ (compute_quality-Keeps at.at_quality s) (serve_known-Keeps at ms q s')

  pub time_handler-Keeps : (at : RequestReadings) (s : AppState F) → Keeps s (time_handler at s).0
  unfolding time_handler
  time_handler-Keeps at s =
      let s' = record s { timebase = (now_ms at.at_now s.timebase).0 } in
      let (s'', r) = serve_time at (now_ms at.at_now s.timebase).1 s' in
      Keeps-trans s s' _ (now_ms-Keeps at.at_now s) (
        Keeps-trans s' s'' _ (serve_time-Keeps at (now_ms at.at_now s.timebase).1 s')
          (count_result-Keeps at r s''))

  pub time_full_handler-Keeps :
      (at : RequestReadings) (s : AppState F) → Keeps s (time_full_handler at s).0
  unfolding time_full_handler
  time_full_handler-Keeps at s =
      let s' = (compute_quality at.at_quality s).0 in
      Keeps-trans s s' _ (compute_quality-Keeps at.at_quality s) (now_ms-Keeps at.at_now s')

  pub readyz_handler-Keeps :
      (at : QualityReadings) (s : AppState F) → Keeps s (readyz_handler at s).0
  unfolding readyz_handler
  readyz_handler-Keeps at s =
      if_intro (λ (x : AppState F × _). Keeps s x.0)
        (s.config.ntp.require_sync && not (has_synced s.timebase)) (Keeps-refl s)
        (if_intro (λ (x : AppState F × _). Keeps s x.0) (has_synced s.timebase)
          (compute_quality-Keeps at s) (Keeps-refl s))

  on_time-Keeps :
      (rfc3339 : ℤ → ℕ → Option String) (t : Tick) (count : ℕ) (o : Option ℤ) (s : AppState F)
      → Keeps s (on_time rfc3339 t count o s).0
  on_time-Keeps rfc3339 t count none s = Keeps-refl s
  on_time-Keeps rfc3339 t count (some ms) s = compute_quality-Keeps t.at_quality s

  pub next_update-Keeps :
      (rfc3339 : ℤ → ℕ → Option String) (t : Tick) (count : ℕ) (s : AppState F)
      → Keeps s (next_update rfc3339 t count s).0
  unfolding next_update
  next_update-Keeps rfc3339 t count s =
      let s' = record s { timebase = (now_ms t.at_now s.timebase).0 } in
      Keeps-trans s s' _ (now_ms-Keeps t.at_now s)
        (on_time-Keeps rfc3339 t count (now_ms t.at_now s.timebase).1 s')

  pub Turned-Keeps :
      (at : TurnReadings) (end : SyncEnd F) (s s' : AppState F)
      (to_save : Option (PersistedState F))
      → Turned at end s (some (s', to_save))
      → Keeps s s'
  unfolding Keeps
  Turned-Keeps at selection_panics s s' to_save h = ground arith
  Turned-Keeps at (fails x) s s' to_save h = (h.settings, λ e. ap has_synced h.timebase ∙ e)
  Turned-Keeps at (succeeds o) s s' to_save h = (h.settings, λ e. h.synced)

  pub sync_turn-ends_as :
      (at : TurnReadings) (end : SyncEnd F) (last_diagnostics : Option (SelectionDiagnostics F))
      (s s' : AppState F) (to_save : Option (PersistedState F))
      → sync_turn at end last_diagnostics s ≡ some (s', to_save)
      → Turned at end s (some (s', to_save))
  sync_turn-ends_as at end last_diagnostics s s' to_save e =
      rw (← e) (sync_turn-Turned at end last_diagnostics s)
