-- ===== src/WebSocket/Streams.antt =====
-- src/http/websocket.rs: how many updates a connection sends, and which times.
use ntp_time_json_api.Common.{
  ℕ, zero, suc, ◌+◌, ◌-◌, ◌^◌, ◌≤◌, ◌<◌, ◌≡◌, refl, Bool, true, false, Option, none, some, List, [],
  ◌∷◌, String, leb, if_cases, if_intro, saturating_mul, ◌==◌, ap, ◌∙◌, length, All, u64, arith,
}
use ntp_time_json_api.Common.Int.{ℤ}
use ntp_time_json_api.Common.Float.{Float}
use native.Mathlib.Nat.{div-le_self}
use ntp_time_json_api.TimeBase.{now_ms}
use ntp_time_json_api.State.{AppState}
use ntp_time_json_api.WebSocket.{
  compute_max_updates, Tick, Message, welcome, tick, no_sync, close, Stream, on_time, next_update,
  send_updates, websocket_connection,
}

abbrev add_number : {F : Type 0} → Message F → List ℕ → List ℕ
add_number (tick m) ns = m.sequence ∷ ns
add_number (no_sync message n) ns = n ∷ ns
add_number (welcome a b) ns = ns
add_number close ns = ns

-- The sequence numbers of the updates.
abbrev pub numbers : {F : Type 0} → List (Message F) → List ℕ
numbers [] = []
numbers (m ∷ ms) = add_number m (numbers ms)

-- The `k` numbers from `n` on.
abbrev pub count_from : ℕ → ℕ → List ℕ
count_from n zero = []
count_from n (suc k) = n ∷ count_from (suc n) k

-- The updates of a task are numbered from its count on and stay below the limit.
abbrev pub Counted : {F : Type 0} → (max_updates count : ℕ) → Stream F → Type 0
Counted max_updates count r =
    (k : ℕ) × (numbers r.messages ≡ count_from count k) × (count + k ≤ max_updates)

-- The task has ended after all the updates up to the limit.
abbrev pub Completed : {F : Type 0} → (max_updates count : ℕ) → Stream F → Type 0
Completed max_updates count r =
    (r.ended ≡ true) × (numbers r.messages ≡ count_from count (max_updates - count))

abbrev pub Sends : Tick → Type 0
Sends t = t.sends ≡ true

-- The limit of a connection.
abbrev pub limit_of : {F : Type 0} → AppState F → ℕ
limit_of s = compute_max_updates s.config.ws.max_duration_secs s.config.ws.update_interval_ms

limit_fits : (duration interval : ℕ) → compute_max_updates duration interval < 2 ^ 64
unfolding compute_max_updates
limit_fits duration interval =
    let shared = saturating_mul duration 1000 in
    if_intro (λ n. n < 2 ^ 64) (duration == 0) (omega arith)
      (omega (arith, div-le_self shared interval))

module _ {F : Type 0} ⦃fl : Float F⦄ (rfc3339 : ℤ → ℕ → Option String) where
  on_time_number :
      (t : Tick) (count : ℕ) (o : Option ℤ) (s : AppState F) (ns : List ℕ)
      → add_number (on_time rfc3339 t count o s).1 ns ≡ count ∷ ns
  on_time_number t count none s ns = refl
  on_time_number t count (some epoch_ms) s ns = refl

  next_update_number :
      (t : Tick) (count : ℕ) (s : AppState F) (ns : List ℕ)
      → add_number (next_update rfc3339 t count s).1 ns ≡ count ∷ ns
  unfolding next_update
  next_update_number t count s ns =
      on_time_number t count (now_ms t.at_now s.timebase).1
        (record s { timebase = (now_ms t.at_now s.timebase).0 }) ns

  send_updates-Counted :
      (max_updates count : ℕ) (ticks : List Tick) (s : AppState F)
      → max_updates < 2 ^ 64
      → count ≤ max_updates
      → Counted max_updates count (send_updates rfc3339 max_updates count ticks s)
  unfolding send_updates
  send_updates-Counted max_updates count [] s w h = (0, refl, omega (arith, h))
  send_updates-Counted max_updates count (t ∷ ts) s w h =
      let (s', m) = next_update rfc3339 t count s in
      if_cases (Counted max_updates count) (leb max_updates count)
        (λ full. (0, refl, omega (arith, h)))
        (λ room.
          let below : count < max_updates = ground (arith, room) in
          let next : u64 (count + 1) ≡ suc count = omega (arith, below, w) in
          if_cases (Counted max_updates count) t.sends
            (λ sent.
              let (k, ns, le) =
                send_updates-Counted max_updates (u64 (count + 1)) ts s' w
                  (omega (arith, below, next)) in
              (
                suc k,
                next_update_number t count s _
                    ∙ ap (λ l. count ∷ l) (ns ∙ ap (λ n. count_from n k) next),
                omega (arith, le, next),
              ))
            (λ lost. (1, next_update_number t count s [], omega (arith, below))))

  send_updates-Completed :
      (max_updates count : ℕ) (ticks : List Tick) (s : AppState F)
      → max_updates < 2 ^ 64
      → count ≤ max_updates
      → max_updates < count + length ticks
      → All Sends ticks
      → Completed max_updates count (send_updates rfc3339 max_updates count ticks s)
  unfolding send_updates
  send_updates-Completed max_updates count [] s w h l a = absurd (omega (arith, h, l))
  send_updates-Completed max_updates count (t ∷ ts) s w h l a =
      let (s', m) = next_update rfc3339 t count s in
      if_cases (Completed max_updates count) (leb max_updates count)
        (λ full.
          let nothing_left : 0 ≡ max_updates - count = ground (arith, full) in
          (refl, ap (count_from count) nothing_left))
        (λ room.
          let below : count < max_updates = ground (arith, room) in
          let next : u64 (count + 1) ≡ suc count = omega (arith, below, w) in
          let one_less : suc (max_updates - u64 (count + 1)) ≡ max_updates - count =
            omega (arith, below, next) in
          if_cases (Completed max_updates count) t.sends
            (λ sent.
              let (ended, ns) =
                send_updates-Completed max_updates (u64 (count + 1)) ts s' w
                  (omega (arith, below, next)) (omega (arith, l, next)) a.1 in
              (
                ended,
                next_update_number t count s _
                    ∙ ap (λ l. count ∷ l)
                        (ns ∙ ap (λ n. count_from n (max_updates - u64 (count + 1))) next)
                    ∙ ap (count_from count) one_less,
              ))
            (λ lost. absurd (ground (arith, lost, a))))

  -- The updates of a connection are numbered from 0 without a gap, and never more than the limit.
  pub websocket_connection-Counted :
      (welcomes : Bool) (ticks : List Tick) (s : AppState F)
      → Counted (limit_of s) 0 (websocket_connection rfc3339 welcomes ticks s)
  unfolding websocket_connection
  websocket_connection-Counted false ticks s = (0, refl, omega arith)
  websocket_connection-Counted true ticks s =
      send_updates-Counted (limit_of s) 0 ticks s
        (limit_fits s.config.ws.max_duration_secs s.config.ws.update_interval_ms) (omega arith)

  -- Where the socket takes every message and more ticks come than the limit, the task of a connection
  -- ends by itself after exactly as many updates as the limit says.
  pub websocket_connection-Completed :
      (ticks : List Tick) (s : AppState F)
      → limit_of s < length ticks
      → All Sends ticks
      → Completed (limit_of s) 0 (websocket_connection rfc3339 true ticks s)
  unfolding websocket_connection
  websocket_connection-Completed ticks s more sent =
      send_updates-Completed (limit_of s) 0 ticks s
        (limit_fits s.config.ws.max_duration_secs s.config.ws.update_interval_ms) (omega arith)
        (omega (arith, more)) sent
