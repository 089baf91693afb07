-- ===== src/Admin/Waiting.antt =====
-- src/http/handlers_admin.rs: the override, its description and the task that waits to end it.
use ntp_time_json_api.Common.{
  ℕ, ◌≡◌, refl, ap, subst, true, false, Option, none, some, List, [], ◌∷◌, if◌then◌else◌, arith,
}
use mathlib.Core.List.{Memᴰ}
use ntp_time_json_api.Samples.{Instant, SyncResult}
use ntp_time_json_api.TimeBase.{
  TimeBase, serve, ntp_path, now_ms, update, is_manual_active, ntp_base_now_ms,
}
use ntp_time_json_api.State.{ManualOverrideState}
use ntp_time_json_api.Overrides.{is_some}
use ntp_time_json_api.Admin.{Service, ExpiryTask, without}

-- An override in the time base is the one that is described.
abbrev pub Describes : TimeBase → Option ManualOverrideState → Type 0
Describes tb none = true ≡ false
Describes tb (some ov) = ov.epoch_ms ≡ tb.manual_base_epoch_ms

-- An override that is described has one task to end it, which is the one that can be aborted.
abbrev pub Awaits : Option ManualOverrideState → Option ℕ → List ExpiryTask → Type 0
Awaits none task waiting = waiting ≡ []
Awaits (some ov) task waiting = (t : ExpiryTask) × (waiting ≡ t ∷ []) × (task ≡ some t.id)

pub record IsConsistent {F : Type 0} (v : Service F) : Type 0 where
  pub described :
      v.app.timebase.manual_active ≡ true → Describes v.app.timebase v.app.override_state
  pub awaits : Awaits v.app.override_state v.app.override_task v.waiting
  pub gauge : v.app.metrics.manual_override_active ≡ (if is_some v.app.override_state then 1 else 0)

-- The time base may be read and updated, and its override ended, but not begun.
pub record Keeps (tb tb' : TimeBase) : Type 0 where
  pub not_begun : tb'.manual_active ≡ true → tb.manual_active ≡ true
  pub same_base : tb'.manual_base_epoch_ms ≡ tb.manual_base_epoch_ms

pub now_ms-Keeps : (now : Instant) (tb : TimeBase) → Keeps tb (now_ms now tb).0
unfolding now_ms ntp_path serve
now_ms-Keeps now tb = ground arith

pub is_manual_active-Keeps : (now : Instant) (tb : TimeBase) → Keeps tb (is_manual_active now tb).0
unfolding is_manual_active
is_manual_active-Keeps now tb = ground arith

pub ntp_base_now_ms-Keeps : (now : Instant) (tb : TimeBase) → Keeps tb (ntp_base_now_ms now tb).0
unfolding ntp_base_now_ms
ntp_base_now_ms-Keeps now tb = ground arith

pub update-Keeps : (now : Instant) (r : SyncResult) (tb : TimeBase) → Keeps tb (update now r tb)
unfolding update
update-Keeps now r tb = ground arith

pub Describes-Keeps :
    (tb tb' : TimeBase) (o : Option ManualOverrideState)
    → Keeps tb tb'
    → (tb.manual_active ≡ true → Describes tb o)
    → tb'.manual_active ≡ true
    → Describes tb' o
Describes-Keeps tb tb' none k h on = h (k.not_begun on)
Describes-Keeps tb tb' (some ov) k h on = ground (arith, h (k.not_begun on), k.same_base)

-- Once its task is aborted, no task waits.
pub without-Awaits :
    (o : Option ManualOverrideState) (task : Option ℕ) (waiting : List ExpiryTask)
    → Awaits o task waiting
    → without task waiting ≡ []
without-Awaits none none waiting a = a
without-Awaits none (some id) waiting a = rw a refl
without-Awaits (some ov) none waiting a = absurd (ground (arith, a.2))
without-Awaits (some ov) (some id) waiting a = rw a.1 (ground (arith, a.2))

-- A task that waits is the only one.
pub without-Mem :
    (o : Option ManualOverrideState) (task : Option ℕ) (waiting : List ExpiryTask) (t : ExpiryTask)
    → Awaits o task waiting
    → Memᴰ t waiting
    → without (some t.id) waiting ≡ []
without-Mem none task waiting t a m = rw a refl
without-Mem (some ov) task waiting t a m = elim (subst (Memᴰ t) a.1 m) [
  | Memᴰ.head e ↦ rw a.1 (ground (arith, ap (λ (x : ExpiryTask). x.id) e))
  | Memᴰ.tail n ↦ elim n [ ]
]
