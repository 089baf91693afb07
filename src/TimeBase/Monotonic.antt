-- ===== src/TimeBase/Monotonic.antt =====
-- src/timebase.rs: with `monotonic_output` the served times ascend, whatever happens in between.
use ntp_time_json_api.Common.{
  false, ltb, if_intro, refl, subst, All, ℕ, ◌^◌, ◌-◌, ap, ◌≡◌, ◌⊎◌, true, Option, none, some, List,
  [], ◌∷◌, arith,
}
use ntp_time_json_api.Common.Int.{
  ℤ, pos, pos_part, neg_part, ◌<ℤ◌, InI64, ◌+i64◌, ◌+ℤ◌, wrap_i64-InI64, wrap_i64_of_InI64,
  +ℤ_parts, pos_or_neg,
}
use ntp_time_json_api.Samples.{Instant, SyncResult}
use ntp_time_json_api.TimeBase.{
  TimeBase, update, serve, ntp_path, force_reference, nanos_at, now_ms, set_manual, clear_manual,
  is_manual_active, ntp_base_now_ms,
}

-- The calls that the other parts of the service make.
pub data Call : Type 0 where
  calls_now : Call
  calls_update : SyncResult → Call
  calls_set_manual : ℤ → ℕ → Call
  calls_clear_manual : Call
  calls_is_manual_active : Call
  calls_ntp_base_now : Call

-- The state after a call, and the time that it serves, if it serves one.
unfoldable pub step : Instant × Call → TimeBase → TimeBase × Option ℤ
step (now, calls_now) s = now_ms now s
step (now, calls_update r) s = (update now r s, none)
step (now, calls_set_manual e ttl) s = (set_manual now e ttl s, none)
step (now, calls_clear_manual) s = (clear_manual s, none)
step (now, calls_is_manual_active) s = ((is_manual_active now s).0, none)
step (now, calls_ntp_base_now) s = ((ntp_base_now_ms now s).0, none)

abbrev add_served : Option ℤ → List ℤ → List ℤ
add_served none l = l
add_served (some t) l = t ∷ l

-- The times that a history of calls serves, in order.
unfoldable pub served : List (Instant × Call) → TimeBase → List ℤ
served [] s = []
served (c ∷ cs) s = let (s', t) = step c s in add_served t (served cs s')

-- Each time lies after the one before it, and the first after `from`.
abbrev pub Ascends : ℤ → List ℤ → Type 0
Ascends from [] = Unit {0}
Ascends from (t ∷ ts) = (from <ℤ t) × Ascends t ts

abbrev pub i64_max : ℤ
i64_max = pos (2 ^ 63 - 1)

-- The clamp is on, and one more millisecond does not overflow.
abbrev pub HasRoom : TimeBase → Type 0
HasRoom s = (s.monotonic_output ≡ true) × InI64 s.last_served_ms × (s.last_served_ms <ℤ i64_max)

-- What a call does to the last served time.
abbrev Advances : ℤ → TimeBase × Option ℤ → Type 0
Advances last (s, none) = (s.monotonic_output ≡ true) × (s.last_served_ms ≡ last)
Advances last (s, some t) =
    (s.monotonic_output ≡ true) × (s.last_served_ms ≡ t) × InI64 t × (last <ℤ t)

+i64-InI64 : (a b : ℤ) → InI64 (a +i64 b)
unfolding ◌+i64◌
+i64-InI64 a b = wrap_i64-InI64 (a +ℤ b)

one_more : (last : ℤ) → InI64 last → last <ℤ i64_max → last <ℤ last +i64 pos 1
unfolding ◌+i64◌
one_more last r h = omega (
  arith,
  +ℤ_parts last (pos 1),
  pos_or_neg (last +ℤ pos 1),
  ap pos_part (wrap_i64_of_InI64 (last +ℤ pos 1) (in_range (pos_or_neg (last +ℤ pos 1)))),
  ap neg_part (wrap_i64_of_InI64 (last +ℤ pos 1) (in_range (pos_or_neg (last +ℤ pos 1)))),
)
  where
    in_range :
        (neg_part (last +ℤ pos 1) ≡ 0) ⊎ (pos_part (last +ℤ pos 1) ≡ 0) → InI64 (last +ℤ pos 1)
    in_range d = omega (arith, +ℤ_parts last (pos 1), d)

serve-Advances :
    (s : TimeBase) (current : ℤ)
    → InI64 current
    → HasRoom s
    → Advances s.last_served_ms (serve current s)
unfolding serve
serve-Advances s current r h =
    ground (arith, one_more s.last_served_ms h.1 h.2, +i64-InI64 s.last_served_ms (pos 1))

ntp_path-Advances :
    (now : Instant) (s : TimeBase) → HasRoom s → Advances s.last_served_ms (ntp_path now s)
unfolding ntp_path
ntp_path-Advances now s h =
    if_intro (Advances s.last_served_ms) s.synced
      (serve-Advances (force_reference now s) _ (+i64-InI64 _ _) h) (h.0, refl)

now_ms-Advances :
    (now : Instant) (s : TimeBase) → HasRoom s → Advances s.last_served_ms (now_ms now s)
unfolding now_ms
now_ms-Advances now s h =
    if_intro (Advances s.last_served_ms) s.manual_active
      (if_intro (Advances s.last_served_ms) (ltb (nanos_at now s now) s.manual_expires_at_nanos)
        (serve-Advances (force_reference now s) _ (+i64-InI64 _ _) h)
        (ntp_path-Advances now (record (force_reference now s) { manual_active = false }) h))
      (ntp_path-Advances now s h)

step-Advances :
    (c : Instant × Call) (s : TimeBase) → HasRoom s → Advances s.last_served_ms (step c s)
unfolding step update set_manual clear_manual is_manual_active ntp_base_now_ms
step-Advances (now, calls_now) s h = now_ms-Advances now s h
step-Advances (now, calls_update r) s h = (h.0, refl)
step-Advances (now, calls_set_manual e ttl) s h = (h.0, refl)
step-Advances (now, calls_clear_manual) s h = (h.0, refl)
step-Advances (now, calls_is_manual_active) s h = ground arith
step-Advances (now, calls_ntp_base_now) s h = ground arith

abbrev IsBelowMax : ℤ → Type 0
IsBelowMax t = t <ℤ i64_max

ascend :
    (last : ℤ) (s : TimeBase) (t : Option ℤ) (rest : List ℤ)
    → InI64 last
    → last <ℤ i64_max
    → Advances last (s, t)
    → All IsBelowMax (add_served t rest)
    → (HasRoom s → All IsBelowMax rest → Ascends s.last_served_ms rest)
    → Ascends last (add_served t rest)
ascend last s none rest r m a all ih =
    subst (λ l. Ascends l rest) a.1 (ih (a.0, rw a.1 r, rw a.1 m) all)
ascend last s (some t) rest r m a all ih =
    (a.3, subst (λ l. Ascends l rest) a.1 (ih (a.0, rw a.1 a.2, rw a.1 all.0) all.1))

-- In every history the served times ascend strictly, from above the last time served before it,
-- as long as none of them is the greatest `i64`.
pub served-Ascends :
    (cs : List (Instant × Call)) (s : TimeBase)
    → HasRoom s
    → All IsBelowMax (served cs s)
    → Ascends s.last_served_ms (served cs s)
unfolding served
served-Ascends [] s h all = tt
served-Ascends (c ∷ cs) s h all =
    let (s', t) = step c s in
    ascend s.last_served_ms s' t (served cs s') h.1 h.2 (step-Advances c s h) all
      (served-Ascends cs (step c s).0)
