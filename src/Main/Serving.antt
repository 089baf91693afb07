-- ===== src/Main/Serving.antt =====
-- src/main.rs, src/http and src/ntp/server.rs: the time that is served while the sync loop runs on.
use ntp_time_json_api.Common.{ℕ, ◌≡◌, refl, false, Bool, Option, some, List, String}
use mathlib.Core.List.{Memᴰ}
use ntp_time_json_api.Common.Int.{ℤ}
use ntp_time_json_api.Common.Float.{Float}
use ntp_time_json_api.Samples.{Instant}
use ntp_time_json_api.Selection.Select.{SelectionDiagnostics}
use ntp_time_json_api.Sync.Round.{SyncOutcome, SyncEnd, succeeds}
use ntp_time_json_api.State.{AppState, QualityReadings, compute_quality}
use ntp_time_json_api.Handlers.{
  RequestReadings, respond, time_handler, time_full_handler, readyz_handler,
}
use ntp_time_json_api.Handlers.Probes.{synced-time_handler}
use ntp_time_json_api.WebSocket.{Tick, next_update}
use ntp_time_json_api.Server.{Readings, NtpServer, handle_request}
use ntp_time_json_api.Server.Limiter.{Ip}
use ntp_time_json_api.Overrides.{SetOverrideRequest, PostReadings}
use ntp_time_json_api.Admin.{
  Service, ExpiryTask, post_override, get_override, run_task, delete_override,
}
use ntp_time_json_api.Persist.{PersistedState}
use ntp_time_json_api.Main.{TurnReadings, sync_turn}
use ntp_time_json_api.Main.Turns.{Turned}
use ntp_time_json_api.Main.Keeping.{
  Keeps, Keeps-refl, Keeps-trans, Turned-Keeps, sync_turn-ends_as, compute_quality-Keeps,
  time_handler-Keeps, time_full_handler-Keeps, readyz_handler-Keeps, next_update-Keeps,
}
use ntp_time_json_api.Main.Overriding.{
  post_override-Keeps, get_override-Keeps, run_task-Keeps, delete_override-Keeps,
  handle_request-KeepsSynced,
}

module _ {F : Type 0} ⦃fl : Float F⦄ where
  abbrev pub with_app : Service F → AppState F → Service F
  with_app v s = record v { app = s }

  -- One step of the service, alone: a turn of the sync loop that does not end it, a request for the
  -- time, its quality or its readiness, an update of a WebSocket, an NTP datagram that the server
  -- handles on this time base, a request for the override, or the task that ends it.
  pub data Step (v : Service F) : Service F → Type 0 where
    turns :
        (at : TurnReadings) (end : SyncEnd F) (last_diagnostics : Option (SelectionDiagnostics F))
        (s' : AppState F) (to_save : Option (PersistedState F))
        → sync_turn at end last_diagnostics v.app ≡ some (s', to_save)
        → Step v (with_app v s')
    tells_time : (at : RequestReadings) → Step v (with_app v (time_handler at v.app).0)
    tells_all : (at : RequestReadings) → Step v (with_app v (time_full_handler at v.app).0)
    tells_quality : (at : QualityReadings) → Step v (with_app v (compute_quality at v.app).0)
    probes : (at : QualityReadings) → Step v (with_app v (readyz_handler at v.app).0)
    updates :
        (rfc3339 : ℤ → ℕ → Option String) (t : Tick) (count : ℕ)
        → Step v (with_app v (next_update rfc3339 t count v.app).0)
    answers :
        (at : Readings) (sends : Bool) (peer : Ip) (bytes : List ℕ) (server : NtpServer F)
        → server.timebase ≡ v.app.timebase
        → Step v (
            with_app v (record v.app {
              timebase = (handle_request F at sends peer bytes server).0.timebase;
            }))
    posts : (at : PostReadings) (body : SetOverrideRequest) → Step v (post_override at body v).0
    gets : (at age : Instant) → Step v (get_override at age v).0
    deletes : (at : Instant) (quality : QualityReadings) → Step v (delete_override at quality v).0
    expires : (t : ExpiryTask) → Memᴰ t v.waiting → Step v (run_task t v)

  pub data Runs (v : Service F) : Service F → Type 0 where
    stays : Runs v v
    goes : {u w : Service F} → Runs v u → Step u w → Runs v w

  answers-Keeps :
      (at : Readings) (sends : Bool) (peer : Ip) (bytes : List ℕ) (server : NtpServer F)
      (s : AppState F)
      → server.timebase ≡ s.timebase
      → Keeps s (record s { timebase = (handle_request F at sends peer bytes server).0.timebase })
  unfolding Keeps
  answers-Keeps at sends peer bytes server s e =
      (refl, λ h. handle_request-KeepsSynced F at sends peer bytes server (rw e h))

  Step-Keeps : {v u : Service F} → Step v u → Keeps v.app u.app
  Step-Keeps {v = v} (turns at end last_diagnostics s' to_save e) =
      Turned-Keeps at end v.app s' to_save
        (sync_turn-ends_as at end last_diagnostics v.app s' to_save e)
  Step-Keeps {v = v} (tells_time at) = time_handler-Keeps at v.app
  Step-Keeps {v = v} (tells_all at) = time_full_handler-Keeps at v.app
  Step-Keeps {v = v} (tells_quality at) = compute_quality-Keeps at v.app
  Step-Keeps {v = v} (probes at) = readyz_handler-Keeps at v.app
  Step-Keeps {v = v} (updates rfc3339 t count) = next_update-Keeps rfc3339 t count v.app
  Step-Keeps {v = v} (answers at sends peer bytes server e) =
      answers-Keeps at sends peer bytes server v.app e
  Step-Keeps {v = v} (posts at body) = post_override-Keeps at body v
  Step-Keeps {v = v} (gets at age) = get_override-Keeps at age v
  Step-Keeps {v = v} (deletes at quality) = delete_override-Keeps at quality v
  Step-Keeps {v = v} (expires t m) = run_task-Keeps t v

  Runs-Keeps : {v w : Service F} → Runs v w → Keeps v.app w.app
  Runs-Keeps {v = v} stays = Keeps-refl v.app
  Runs-Keeps {v = v} (goes {u = u} {w = w} r st) =
      Keeps-trans v.app u.app w.app (Runs-Keeps r) (Step-Keeps st)

  -- Outside strict mode, once a round has succeeded and its turn is over, `/time` is answered with
  -- status 200, whatever comes in between, each alone: further turns of the sync loop, good or
  -- failed, requests for the time, its quality or its readiness, updates of WebSockets, NTP
  -- datagrams, requests that set, read or end an override, and the tasks that end one.
  pub sync_turn-time_handler :
      (at : TurnReadings) (o : SyncOutcome F) (last_diagnostics : Option (SelectionDiagnostics F))
      (v w : Service F) (s' : AppState F) (to_save : Option (PersistedState F))
      (request : RequestReadings)
      → v.app.config.quality.strict_sla_mode ≡ false
      → sync_turn at (succeeds o) last_diagnostics v.app ≡ some (s', to_save)
      → Runs (with_app v s') w
      → (respond (time_handler request w.app).1).status ≡ 200
  unfolding Keeps
  sync_turn-time_handler at o last_diagnostics v w s' to_save request lax e runs =
      let turned : Turned at (succeeds o) v.app (some (s', to_save)) =
        sync_turn-ends_as at (succeeds o) last_diagnostics v.app s' to_save e in
      let (settings, synced) = Runs-Keeps runs in
      synced-time_handler request w.app (rw settings (rw turned.settings lax))
        (synced turned.synced)
