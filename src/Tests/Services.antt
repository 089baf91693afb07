-- ===== src/Tests/Services.antt =====
-- src/http/handlers.rs, src/http/handlers_admin.rs and src/config.rs at concrete inputs.
use ntp_time_json_api.Common.{◌≡◌, refl, true, none, [], arith}
use ntp_time_json_api.Common.Int.{ℤ, pos, ◌+i64◌, ◌+ℤ◌}
use ntp_time_json_api.Quality.{compute_dispersion_ms}
use ntp_time_json_api.Common.Float.{int_float}
use ntp_time_json_api.TimeBase
use ntp_time_json_api.TimeBase.{
  has_synced, set_manual, clear_manual, is_manual_active, ntp_base_now_ms, now_ms, update,
}
use ntp_time_json_api.State
use ntp_time_json_api.State.{AppState, QualityReadings, compute_quality}
use ntp_time_json_api.Overrides.{SetOverrideRequest, PostReadings, inactive, reply_status, is_some}
use ntp_time_json_api.Admin.{
  Service, post_override, delete_override, get_override, set_time, publish, run_task,
}
use ntp_time_json_api.Admin.Waiting.{IsConsistent}
use ntp_time_json_api.Admin.Invariant.{here, next, posts, deletes, Reach-IsConsistent}
use ntp_time_json_api.Admin.Accepting.{Handled, post_override-Handled, publish-run_task}
use ntp_time_json_api.Responses.{ready}
use ntp_time_json_api.Handlers.{
  RequestReadings, respond, time_handler, time_full_handler, readyz_handler,
}
use ntp_time_json_api.Handlers.Verdicts.{Agrees, time_handler-time_full_handler}
use ntp_time_json_api.Handlers.Probes.{readyz_handler-time_handler}
use ntp_time_json_api.Tests.States.{state, late}
use ntp_time_json_api.Tests.Rounds.{request}

-- A service that synced and never had an override.
abbrev service : Service ℤ
service = record {
  app = record state {
    timebase = record state.timebase { synced = true; base_epoch_ms = pos 100_000 };
  };
  waiting = [];
  spawned = 0;
}

abbrev body : SetOverrideRequest
body = record {
  epoch_ms = pos 101_000;
  reason = "drill";
  ttl_seconds = 60;
  operator = none;
  force = none;
}

abbrev at : PostReadings
at = record {
  at_check = 1_000_000_000;
  set_at_instant = 1_000_000_001;
  at_set = 1_000_000_002;
  system = pos 100_000_000_000;
  at_jump = 1_000_000_003;
  at_seed = 1_000_000_004;
  at_manual = 1_000_000_005;
}

abbrev both : RequestReadings
both = record request { at_quality = record late { at_manual = request.at_now } }

time_handler-time_full_handler_example :
    Agrees service.app
      (respond (time_handler both service.app).1)
      (time_full_handler both service.app).1
time_handler-time_full_handler_example = time_handler-time_full_handler both service.app refl

is_ready : (readyz_handler late service.app).1 ≡ ready
unfolding readyz_handler State.new compute_quality has_synced is_manual_active TimeBase.new
    compute_dispersion_ms ◌+ℤ◌
is_ready = refl

readyz_handler-time_handler_example : (respond (time_handler request service.app).1).status ≡ 200
unfolding State.new
readyz_handler-time_handler_example =
    readyz_handler-time_handler late request service.app refl is_ready

service-IsConsistent : IsConsistent service
unfolding State.new TimeBase.new
service-IsConsistent = record { described = λ e. ground (arith, e); awaits = refl; gauge = refl }

-- An override is set and then cleared.
Reach-IsConsistent_example :
    IsConsistent (delete_override 2_000_000_000 late (post_override at body service).0).0
Reach-IsConsistent_example =
    Reach-IsConsistent service-IsConsistent
      (next (next here (posts at body)) (deletes 2_000_000_000 late))

post_override-Handled_example : Handled at body service (post_override at body service)
unfolding State.new TimeBase.new ntp_base_now_ms ◌+i64◌
post_override-Handled_example =
    post_override-Handled at body service (omega arith, omega arith) (omega arith, omega arith)
      (omega arith)

publish-run_task_example :
    let (begun, timing) = set_time at body service in
    let (v', reply) =
      publish at body timing (run_task (record { id = 0; deadline = 1_000_000_003 }) begun) in
    (reply_status reply ≡ 200)
    × (is_some v'.app.override_state ≡ true)
    × (v'.app.metrics.manual_override_active ≡ 1)
    × ((get_override 2_000_000_000 2_000_000_001 v').1 ≡ inactive)
    × ((now_ms 2_000_000_000 v'.app.timebase).1
        ≡ (now_ms 2_000_000_000 (clear_manual begun.app.timebase)).1)
publish-run_task_example =
    publish-run_task at body service (record { id = 0; deadline = 1_000_000_003 }) 2_000_000_000
      2_000_000_001
