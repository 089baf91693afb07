-- ===== src/Main/Overriding.antt =====
-- src/http/handlers_admin.rs and src/ntp/server.rs: what the requests for the override, the task that
-- ends it and a datagram leave of the settings and of a synced time base.
use ntp_time_json_api.Common.{
  ℕ, if_intro, ◌≡◌, refl, true, false, ◌||◌, Bool, Option, none, List, Result, ok, err,
}
use ntp_time_json_api.Common.Int.{pos}
use ntp_time_json_api.Common.Float.{Float}
use ntp_time_json_api.Samples.{Instant, SyncQuality}
use ntp_time_json_api.TimeBase.{
  TimeBase, has_synced, now_ms, is_manual_active, ntp_base_now_ms, clear_manual,
}
use ntp_time_json_api.TimeBase.Kept.{
  KeepsSynced, now_ms-KeepsSynced, is_manual_active-KeepsSynced, ntp_base_now_ms-KeepsSynced,
  set_manual-KeepsSynced, clear_manual-KeepsSynced, update-KeepsSynced, manual_age_ms-KeepsSynced,
}
use ntp_time_json_api.Protocol.{NtpPacket, ProtocolError, parse_packet}
use ntp_time_json_api.Server.{
  Readings, NtpServer, build_response, answer, on_parsed, counted, handle_request,
}
use ntp_time_json_api.Server.Limiter.{Ip, allow}
use ntp_time_json_api.State.{AppState, QualityReadings}
use ntp_time_json_api.Overrides.{
  SetOverrideRequest, PostReadings, Refusal, Reply, is_some, check_request, check_jump, seed,
}
use ntp_time_json_api.Admin.{
  Service, ExpiryTask, seeded, set_time, publish, activate, refuse, on_jump, on_request,
  post_override, get_override, abort_task, expire, run_task, report_cleared, delete_override,
}
use ntp_time_json_api.Main.Keeping.{Keeps, Keeps-trans, compute_quality-Keeps}

module _ {F : Type 0} ⦃fl : Float F⦄ where
  Keeps-both :
      (s s' : AppState F) → s'.config ≡ s.config → KeepsSynced s.timebase s'.timebase → Keeps s s'
  unfolding Keeps
  Keeps-both s s' c k = (c, k)

  seeded-KeepsSynced :
      (at : PostReadings) (body : SetOverrideRequest) (s : AppState F) (tb : TimeBase)
      → KeepsSynced tb (seeded at body s tb)
  unfolding seeded
  seeded-KeepsSynced at body s tb h =
      if_intro (λ (x : TimeBase). has_synced x ≡ true) (has_synced tb) h
        (update-KeepsSynced at.at_seed (seed at body s.config.admin.dispersion_ms) tb h)

  activate-Keeps :
      (at : PostReadings) (body : SetOverrideRequest) (v : Service F)
      → Keeps v.app (activate at body v).0.app
  unfolding Keeps activate set_time publish abort_task
  activate-Keeps at body v = (
    refl,
    λ h.
        let read = (now_ms at.at_set v.app.timebase).0 in
        let jumped = (ntp_base_now_ms at.at_jump read).0 in
        set_manual-KeepsSynced at.at_manual body.epoch_ms body.ttl_seconds
          (seeded at body v.app jumped)
          (seeded-KeepsSynced at body v.app jumped (
            ntp_base_now_ms-KeepsSynced at.at_jump read
              (now_ms-KeepsSynced at.at_set v.app.timebase h))),
  )

  refuse-Keeps : (r : Refusal) (v : Service F) → Keeps v.app (refuse r v).0.app
  unfolding Keeps
  refuse-Keeps r v = (refl, λ h. h)

  on_jump-Keeps :
      (at : PostReadings) (body : SetOverrideRequest) (r : Result (Unit {0}) Refusal)
      (v : Service F)
      → Keeps v.app (on_jump at body r v).0.app
  on_jump-Keeps at body (err r) v = refuse-Keeps r v
  on_jump-Keeps at body (ok passed) v = activate-Keeps at body v

  on_request-Keeps :
      (at : PostReadings) (body : SetOverrideRequest) (r : Result Bool Refusal) (v : Service F)
      → Keeps v.app (on_request at body r v).0.app
  on_request-Keeps at body (err r) v = refuse-Keeps r v
  on_request-Keeps at body (ok true) v = activate-Keeps at body v
  on_request-Keeps at body (ok false) v =
      let (timebase, ntp_now) = ntp_base_now_ms at.at_check v.app.timebase in
      let v' = record v { app = record v.app { timebase = timebase } } in
      Keeps-trans v.app v'.app _
        (Keeps-both v.app v'.app refl (ntp_base_now_ms-KeepsSynced at.at_check v.app.timebase))
        (on_jump-Keeps at body (check_jump body v.app.config.admin.max_jump_ms ntp_now) v')

  pub post_override-Keeps :
      (at : PostReadings) (body : SetOverrideRequest) (v : Service F)
      → Keeps v.app (post_override at body v).0.app
  unfolding post_override
  post_override-Keeps at body v = on_request-Keeps at body (check_request body v.app) v

  pub get_override-Keeps :
      (at age : Instant) (v : Service F) → Keeps v.app (get_override at age v).0.app
  unfolding Keeps get_override
  get_override-Keeps at age v = (refl, is_manual_active-KeepsSynced at v.app.timebase)

  pub run_task-Keeps : (t : ExpiryTask) (v : Service F) → Keeps v.app (run_task t v).app
  unfolding Keeps run_task expire
  run_task-Keeps t v = (refl, clear_manual-KeepsSynced v.app.timebase)

  report_cleared-Keeps : (at : QualityReadings) (s : AppState F) → Keeps s (report_cleared at s)
  unfolding Keeps report_cleared
  report_cleared-Keeps at s = compute_quality-Keeps at (record s {
    metrics = record s.metrics {
      manual_override_active = 0;
      manual_override_expiry_timestamp_seconds = pos 0;
    };
  })

  pub delete_override-Keeps :
      (at : Instant) (quality : QualityReadings) (v : Service F)
      → Keeps v.app (delete_override at quality v).0.app
  unfolding delete_override abort_task
  delete_override-Keeps at quality v =
      let read = is_manual_active at v.app.timebase in
      let s = record v.app {
        timebase = clear_manual read.0;
        override_state = none;
        override_task = none;
      } in
      let cleared =
        Keeps-both v.app s refl (λ h.
          clear_manual-KeepsSynced read.0 (is_manual_active-KeepsSynced at v.app.timebase h)) in
      if_intro (λ (x : Service F × Reply). Keeps v.app x.0.app)
        (read.1 || is_some v.app.override_state)
        (Keeps-trans v.app s _ cleared (report_cleared-Keeps quality s)) cleared

module _ (F : Type 0) ⦃fl : Float F⦄ where
  build_response-KeepsSynced :
      (at : Readings) (tb : TimeBase) (request : NtpPacket) (receive_ntp : ℕ)
      (quality : Option SyncQuality) (max_ms manual_ms : ℕ)
      → KeepsSynced tb (build_response F at tb request receive_ntp quality max_ms manual_ms).0
  unfolding build_response
  build_response-KeepsSynced at tb request receive_ntp quality max_ms manual_ms h =
      let read = is_manual_active at.at_manual tb in
      let h' = is_manual_active-KeepsSynced at.at_manual tb h in
      if_intro (λ (x : TimeBase × NtpPacket). has_synced x.0 ≡ true) read.1
        (manual_age_ms-KeepsSynced at.at_age read.0 h') h'

  answer-KeepsSynced :
      (at : Readings) (sends : Bool) (request : NtpPacket) (s : NtpServer F)
      → KeepsSynced s.timebase (answer F at sends request s).0.timebase
  unfolding answer
  answer-KeepsSynced at sends request s h =
      let tb = (now_ms at.at_receive s.timebase).0 in
      let h' = now_ms-KeepsSynced at.at_transmit _ (
        build_response-KeepsSynced at tb request _ s.last_sync_quality s.max_root_dispersion_ms
          s.manual_dispersion_ms (now_ms-KeepsSynced at.at_receive s.timebase h)) in
      if_intro (λ (x : NtpServer F × Option (List ℕ)). has_synced x.0.timebase ≡ true) sends h' h'

  on_parsed-KeepsSynced :
      (at : Readings) (sends : Bool) (r : Result NtpPacket ProtocolError) (s : NtpServer F)
      → KeepsSynced s.timebase (on_parsed F at sends r s).0.timebase
  on_parsed-KeepsSynced at sends (ok request) s h = answer-KeepsSynced at sends request s h
  on_parsed-KeepsSynced at sends (err e) s h = h

  pub handle_request-KeepsSynced :
      (at : Readings) (sends : Bool) (peer : Ip) (bytes : List ℕ) (s : NtpServer F)
      → KeepsSynced s.timebase (handle_request F at sends peer bytes s).0.timebase
  unfolding handle_request
  handle_request-KeepsSynced at sends peer bytes s h =
      let (limiter, allowed) = allow at.at_limit peer s.rate_limiter in
      let s' = record (counted F s) { rate_limiter = limiter } in
      if_intro (λ (x : NtpServer F × Option (List ℕ)). has_synced x.0.timebase ≡ true) allowed
        (on_parsed-KeepsSynced at sends (parse_packet bytes) s' h) h
