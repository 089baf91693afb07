-- ===== src/Admin/Invariant.antt =====
-- src/http/handlers_admin.rs: what holds between two requests, however they and the other users of
-- the state follow each other.
use ntp_time_json_api.Common.{
  ℕ, ◌≡◌, refl, ap, Bool, true, false, ◌||◌, none, List, [], ◌∷◌, Result, ok, err, if_cases, arith,
}
use mathlib.Core.List.{Memᴰ}
use ntp_time_json_api.Common.Float.{Float}
use ntp_time_json_api.Samples.{Instant, SyncResult}
use ntp_time_json_api.TimeBase.{
  TimeBase, now_ms, update, set_manual, clear_manual, is_manual_active, ntp_base_now_ms,
}
use ntp_time_json_api.State.{AppState, QualityReadings, compute_quality}
use ntp_time_json_api.Admin.Waiting.{
  IsConsistent, Keeps, Describes-Keeps, without-Awaits, without-Mem, now_ms-Keeps,
  is_manual_active-Keeps, ntp_base_now_ms-Keeps, update-Keeps,
}
use ntp_time_json_api.Overrides.{
  SetOverrideRequest, PostReadings, Refusal, Reply, is_some, check_request, check_jump, deadline_of,
}
use ntp_time_json_api.Admin.{
  Service, ExpiryTask, without, activate, refuse, on_jump, on_request, post_override, get_override,
  run_task, report_cleared, delete_override,
}

module _ {F : Type 0} where
  timebase-IsConsistent :
      (v : Service F) (tb : TimeBase)
      → Keeps v.app.timebase tb
      → IsConsistent v
      → IsConsistent (record v { app = record v.app { timebase = tb } })
  timebase-IsConsistent v tb k c = record {
    described = Describes-Keeps v.app.timebase tb v.app.override_state k c.described;
    awaits = c.awaits;
    gauge = c.gauge;
  }

  refuse-IsConsistent : (r : Refusal) (v : Service F) → IsConsistent v → IsConsistent (refuse r v).0
  refuse-IsConsistent r v c = record { described = c.described; awaits = c.awaits; gauge = c.gauge }

  activate-IsConsistent :
      (at : PostReadings) (body : SetOverrideRequest) (v : Service F)
      → IsConsistent v
      → IsConsistent (activate at body v).0
  unfolding activate set_manual
  activate-IsConsistent at body v c = record {
    described = λ on. refl;
    awaits = (
      record { id = v.spawned; deadline = deadline_of at body },
      ap (λ l. record { id = v.spawned; deadline = deadline_of at body } ∷ l)
          (without-Awaits v.app.override_state v.app.override_task v.waiting c.awaits),
      refl,
    );
    gauge = refl;
  }

  on_jump-IsConsistent :
      (at : PostReadings) (body : SetOverrideRequest) (r : Result (Unit {0}) Refusal)
      (v : Service F)
      → IsConsistent v
      → IsConsistent (on_jump at body r v).0
  on_jump-IsConsistent at body (err r) v c = refuse-IsConsistent r v c
  on_jump-IsConsistent at body (ok passed) v c = activate-IsConsistent at body v c

  on_request-IsConsistent :
      (at : PostReadings) (body : SetOverrideRequest) (r : Result Bool Refusal) (v : Service F)
      → IsConsistent v
      → IsConsistent (on_request at body r v).0
  on_request-IsConsistent at body (err r) v c = refuse-IsConsistent r v c
  on_request-IsConsistent at body (ok true) v c = activate-IsConsistent at body v c
  on_request-IsConsistent at body (ok false) v c =
      let read = ntp_base_now_ms at.at_check v.app.timebase in
      on_jump-IsConsistent at body (check_jump body v.app.config.admin.max_jump_ms read.1)
        (record v { app = record v.app { timebase = read.0 } })
        (timebase-IsConsistent v read.0 (ntp_base_now_ms-Keeps at.at_check v.app.timebase) c)

  post_override-IsConsistent :
      (at : PostReadings) (body : SetOverrideRequest) (v : Service F)
      → IsConsistent v
      → IsConsistent (post_override at body v).0
  unfolding post_override
  post_override-IsConsistent at body v c =
      on_request-IsConsistent at body (check_request body v.app) v c

  get_override-IsConsistent :
      (at age : Instant) (v : Service F) → IsConsistent v → IsConsistent (get_override at age v).0
  unfolding get_override
  get_override-IsConsistent at age v c =
      timebase-IsConsistent v (is_manual_active at v.app.timebase).0
        (is_manual_active-Keeps at v.app.timebase) c

  run_task-IsConsistent :
      (t : ExpiryTask) (v : Service F)
      → Memᴰ t v.waiting
      → IsConsistent v
      → IsConsistent (run_task t v)
  unfolding run_task clear_manual
  run_task-IsConsistent t v m c = record {
    described = λ on. absurd (ground (arith, on));
    awaits = without-Mem v.app.override_state v.app.override_task v.waiting t c.awaits m;
    gauge = refl;
  }

module _ {F : Type 0} ⦃fl : Float F⦄ where
  cleared-IsConsistent :
      (quality : QualityReadings) (s : AppState F) (tb : TimeBase) (waiting : List ExpiryTask)
      (spawned : ℕ)
      → waiting ≡ []
      → IsConsistent (record {
        app =
            report_cleared quality (record s {
              timebase = clear_manual tb;
              override_state = none;
              override_task = none;
            });
        waiting = waiting;
        spawned = spawned;
      })
  unfolding report_cleared compute_quality clear_manual
  cleared-IsConsistent quality s tb waiting spawned gone = record {
    described = λ on. absurd (
        ground (
          arith,
          (is_manual_active-Keeps quality.at_manual (record tb { manual_active = false })).not_begun
              on,
        ));
    awaits = gone;
    gauge = refl;
  }

  delete_override-IsConsistent :
      (at : Instant) (quality : QualityReadings) (v : Service F)
      → IsConsistent v
      → IsConsistent (delete_override at quality v).0
  unfolding delete_override clear_manual
  delete_override-IsConsistent at quality v c =
      let read = is_manual_active at v.app.timebase in
      let gone = without-Awaits v.app.override_state v.app.override_task v.waiting c.awaits in
      if_cases (λ (result : Service F × Reply). IsConsistent result.0)
        (read.1 || is_some v.app.override_state)
        (λ had.
          cleared-IsConsistent quality v.app read.0 (without v.app.override_task v.waiting)
            v.spawned gone)
        (λ none_was. record {
          described = λ on. absurd (ground (arith, on));
          awaits = gone;
          gauge = ground (arith, c.gauge, none_was);
        })

  compute_quality-IsConsistent :
      (at : QualityReadings) (v : Service F)
      → IsConsistent v
      → IsConsistent (record v { app = (compute_quality at v.app).0 })
  unfolding compute_quality
  compute_quality-IsConsistent at v c =
      timebase-IsConsistent v (is_manual_active at.at_manual v.app.timebase).0
        (is_manual_active-Keeps at.at_manual v.app.timebase) c

  -- One step of the service: a request, a task whose deadline has come, or another user of the time
  -- base: a reading of the time, of its quality, or a sync.
  pub data Step (v : Service F) : Service F → Type 0 where
    posts : (at : PostReadings) (body : SetOverrideRequest) → Step v (post_override at body v).0
    gets : (at age : Instant) → Step v (get_override at age v).0
    deletes : (at : Instant) (quality : QualityReadings) → Step v (delete_override at quality v).0
    expires : (t : ExpiryTask) → Memᴰ t v.waiting → Step v (run_task t v)
    reads_time :
        (now : Instant)
        → Step v (record v { app = record v.app { timebase = (now_ms now v.app.timebase).0 } })
    reads_quality :
        (at : QualityReadings) → Step v (record v { app = (compute_quality at v.app).0 })
    syncs :
        (now : Instant) (r : SyncResult)
        → Step v (record v { app = record v.app { timebase = update now r v.app.timebase } })

  pub data Reach (v : Service F) : Service F → Type 0 where
    here : Reach v v
    next : {u w : Service F} → Reach v u → Step u w → Reach v w

  Step-IsConsistent : {v u : Service F} → Step v u → IsConsistent v → IsConsistent u
  Step-IsConsistent {v = v} (posts at body) c = post_override-IsConsistent at body v c
  Step-IsConsistent {v = v} (gets at age) c = get_override-IsConsistent at age v c
  Step-IsConsistent {v = v} (deletes at quality) c = delete_override-IsConsistent at quality v c
  Step-IsConsistent {v = v} (expires t m) c = run_task-IsConsistent t v m c
  Step-IsConsistent {v = v} (reads_time now) c =
      timebase-IsConsistent v (now_ms now v.app.timebase).0 (now_ms-Keeps now v.app.timebase) c
  Step-IsConsistent {v = v} (reads_quality at) c = compute_quality-IsConsistent at v c
  Step-IsConsistent {v = v} (syncs now r) c =
      timebase-IsConsistent v (update now r v.app.timebase) (update-Keeps now r v.app.timebase) c

  -- From a consistent state, whatever requests, expiries, readings and syncs follow each other: an
  -- override that the time base serves is the one that is described, an override that is described
  -- has exactly one task waiting to end it, no task waits where none is described, and the gauge
  -- shows which is the case.
  pub Reach-IsConsistent : {v u : Service F} → IsConsistent v → Reach v u → IsConsistent u
  Reach-IsConsistent c here = c
  Reach-IsConsistent c (next r st) = Step-IsConsistent st (Reach-IsConsistent c r)
