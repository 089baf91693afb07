-- ===== src/Admin.antt =====
-- src/http/handlers_admin.rs: the manual override of the time, and the task that ends it.
-- `Service` is the state with the tasks that wait for their deadline; a task is known by the order
-- in which it was spawned, and one that was aborted does not wait any more. A handler runs alone.
pub mod Waiting
pub mod Invariant
pub mod Accepting
use Prim.Native.Char.{Char, code}
use text.Mathlib.TextBridge.{to_list}
use ntp_time_json_api.Common.{
  ℕ, suc, ◌+◌, ◌-◌, ◌*◌, Bool, true, false, not, ◌&&◌, ◌||◌, Option, none, some, List, [], ◌∷◌,
  String, ltb, leb, ◌==◌, if◌then◌else◌, keep, u32, u64, Result, ok, err, ◌>>=◌, ◌>>◌,
}
use mathlib.Core.Option
use mathlib.Core.Option.{get_or}
use ntp_time_json_api.Common.Int.{
  ℤ, pos, negsuc, ltb_ℤ, leb_ℤ, wrap_i64, div_ℤ, abs_i64, ◌+i64◌, ◌-i64◌,
}
use ntp_time_json_api.Common.Float.{Float}
use ntp_time_json_api.Samples.{Instant, SyncResult, as_millis, estimated}
use ntp_time_json_api.Client.{SystemTime, system_time_unix_ms}
use ntp_time_json_api.Server.{reference_id_manual}
use ntp_time_json_api.TimeBase
use ntp_time_json_api.TimeBase.{
  TimeBase, now_ms, has_synced, is_manual_active, ntp_base_now_ms, set_manual, clear_manual,
}
use ntp_time_json_api.Metrics.{Metrics, inc_label}
use ntp_time_json_api.State.{
  ManualOverrideState, OverrideInfo, Source, AppState, QualityReadings, compute_quality,
}
use ntp_time_json_api.Overrides.{
  SetOverrideRequest, Refusal, label_of, status_of, Reply, reply_status, is_blank, is_some, is_true,
  PostReadings, deadline_of, Metadata, seed, mode_of, check_jump, describe_active, check_request,
  force_not_allowed, empty_reason, invalid_ttl, jump_too_large, refused, is_set, active, inactive,
  cleared, no_active_override,
}

pub record ExpiryTask : Type 0 where
  pub id : ℕ
  pub deadline : Instant

pub record Service (F : Type 0) : Type 0 where
  pub app : AppState F
  pub waiting : List ExpiryTask
  pub spawned : ℕ

-- `if let Some(handle) = task.take() { handle.abort() }`
abbrev pub without : Option ℕ → List ExpiryTask → List ExpiryTask
without none waiting = waiting
without (some id) waiting = keep (λ t. not (t.id == id)) waiting

module _ {F : Type 0} where
  unfoldable pub abort_task : Service F → Service F
  abort_task v = record v {
    app = record v.app { override_task = none };
    waiting = without v.app.override_task v.waiting;
  }

  unfoldable pub seeded : PostReadings → SetOverrideRequest → AppState F → TimeBase → TimeBase
  seeded at body s timebase =
      if has_synced timebase
      then timebase
      else TimeBase.update at.at_seed (seed at body s.config.admin.dispersion_ms) timebase

  -- An accepted request up to the time base, which is set first.
  unfoldable pub set_time : PostReadings → SetOverrideRequest → Service F → Service F × Metadata
  unfolding seeded
  set_time at body v =
      let (tb, served) = now_ms at.at_set v.app.timebase in
      let set_at_ms = get_or served (system_time_unix_ms at.system) in
      let (tb, ntp) = ntp_base_now_ms at.at_jump tb in
      (
        record v {
          app = record v.app {
            timebase =
                set_manual at.at_manual body.epoch_ms body.ttl_seconds (seeded at body v.app tb);
          };
        },
        record {
          set_at_ms = set_at_ms;
          expires_at_ms = set_at_ms +i64 pos (body.ttl_seconds * 1000);
          jump_ms = get_or (Option.map (λ t. body.epoch_ms -i64 t) ntp) (pos 0);
        },
      )

  -- The rest of it: the old task is aborted, the override is described and the new task spawned.
  unfoldable pub publish :
      PostReadings → SetOverrideRequest → Metadata → Service F → Service F × Reply
  unfolding abort_task
  publish at body timing v =
      let v = abort_task v in
      let app = record v.app {
        override_state = some (record {
          epoch_ms = body.epoch_ms;
          set_at_ms = timing.set_at_ms;
          expires_at_ms = timing.expires_at_ms;
          set_at_instant = at.set_at_instant;
          reason = body.reason;
          operator = body.operator;
          jump_ms = timing.jump_ms;
        });
        override_task = some v.spawned;
        metrics = record v.app.metrics {
          manual_override_active = 1;
          manual_override_total = u64 (v.app.metrics.manual_override_total + 1);
          manual_override_expiry_timestamp_seconds = div_ℤ timing.expires_at_ms 1000;
          time_source_mode = 3;
        };
      } in
      (
        record {
          app = app;
          waiting = record { id = v.spawned; deadline = deadline_of at body } ∷ v.waiting;
          spawned = suc v.spawned;
        },
        is_set (record {
          epoch_ms = body.epoch_ms;
          set_at_ms = timing.set_at_ms;
          expires_at_ms = timing.expires_at_ms;
          reason = body.reason;
          operator = body.operator;
          jump_ms = timing.jump_ms;
          ttl_remaining_secs = pos body.ttl_seconds;
        }),
      )

  unfoldable pub activate : PostReadings → SetOverrideRequest → Service F → Service F × Reply
  unfolding set_time publish
  activate at body v = let (v, timing) = set_time at body v in publish at body timing v

  abbrev pub refuse : Refusal → Service F → Service F × Reply
  refuse r v = (
    record v {
      app = record v.app {
        metrics = record v.app.metrics {
          manual_override_rejected_total =
              inc_label (label_of r) v.app.metrics.manual_override_rejected_total;
        };
      };
    },
    refused r,
  )

  abbrev pub on_jump :
      PostReadings → SetOverrideRequest → Result (Unit {0}) Refusal → Service F → Service F × Reply
  on_jump at body (err r) v = refuse r v
  on_jump at body (ok passed) v = activate at body v

  abbrev pub on_request :
      PostReadings → SetOverrideRequest → Result Bool Refusal → Service F → Service F × Reply
  on_request at body (err r) v = refuse r v
  on_request at body (ok true) v = activate at body v
  on_request at body (ok false) v =
      let (timebase, ntp_now) = ntp_base_now_ms at.at_check v.app.timebase in
      on_jump at body (check_jump body v.app.config.admin.max_jump_ms ntp_now)
        (record v { app = record v.app { timebase = timebase } })

  unfoldable pub post_override : PostReadings → SetOverrideRequest → Service F → Service F × Reply
  unfolding activate
  post_override at body v = on_request at body (check_request body v.app) v

  -- GET: `at` tells whether the override is active.
  unfoldable pub get_override : Instant → Instant → Service F → Service F × Reply
  get_override at age v =
      let (timebase, is_active) = is_manual_active at v.app.timebase in
      (
        record v { app = record v.app { timebase = timebase } },
        if is_active then describe_active age v.app.override_state else inactive,
      )

  -- The task at its deadline.
  unfoldable pub expire : Service F → Service F
  expire v = record v {
    app = record v.app {
      timebase = clear_manual v.app.timebase;
      override_state = none;
      metrics = record v.app.metrics {
        manual_override_active = 0;
        manual_override_expiry_timestamp_seconds = pos 0;
      };
    };
  }

  -- The deadline of a task that waits has come: the task runs and waits no more.
  unfoldable pub run_task : ExpiryTask → Service F → Service F
  unfolding expire
  run_task t v = expire (record v { waiting = without (some t.id) v.waiting })

module _ {F : Type 0} ⦃fl : Float F⦄ where
  -- What DELETE does where there was an override.
  unfoldable pub report_cleared : QualityReadings → AppState F → AppState F
  report_cleared at s =
      let s = record s {
        metrics = record s.metrics {
          manual_override_active = 0;
          manual_override_expiry_timestamp_seconds = pos 0;
        };
      } in
      let (s, quality) = compute_quality at s in
      record s { metrics = record s.metrics { time_source_mode = mode_of quality.source } }

  -- DELETE: `at` tells whether the override is active.
  unfoldable pub delete_override : Instant → QualityReadings → Service F → Service F × Reply
  unfolding abort_task report_cleared
  delete_override at quality v =
      let v = abort_task v in
      let (timebase, was_active) = is_manual_active at v.app.timebase in
      let prev_state = v.app.override_state in
      let app = record v.app { timebase = clear_manual timebase; override_state = none } in
      if was_active || is_some prev_state
      then (record v { app = report_cleared quality app }, cleared)
      else (record v { app = app }, no_active_override)
