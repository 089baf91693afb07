-- ===== src/WebSocket.antt =====
-- src/http/websocket.rs: the stream of times that a connection sends.
-- A message is the values that its JSON text is made of. A tick carries the readings of its calls,
-- and whether the socket takes the message. The date library is an argument. What the client sends
-- is only logged, but for its close, which ends the wait for both tasks.
pub mod Streams
use mathlib.Core.Option.{get_or}
use ntp_time_json_api.Common.{
  ℕ, suc, ◌+◌, ◌-◌, ◌*◌, ◌/◌, ◌%◌, ◌^◌, Bool, true, false, not, Option, none, some, List, [], ◌∷◌,
  String, ltb, leb, ◌==◌, if◌then◌else◌, u32, u64, u64_max, saturating_mul,
}
use ntp_time_json_api.Common.Int.{ℤ, pos, negsuc, div_ℤ}
use ntp_time_json_api.Common.Float.{Float}
use ntp_time_json_api.Samples.{Instant}
use ntp_time_json_api.TimeBase.{now_ms}
use ntp_time_json_api.Responses.{is_ok}
use ntp_time_json_api.State.{
  Source, ServeState, TimeQuality, AppState, QualityReadings, compute_quality,
}

-- `u64::MAX` stands for no limit. The interval is not 0 in valid settings.
unfoldable pub compute_max_updates : (max_duration_secs update_interval_ms : ℕ) → ℕ
compute_max_updates max_duration_secs update_interval_ms =
    if max_duration_secs == 0
    then u64_max
    else saturating_mul max_duration_secs 1000 / update_interval_ms

-- `((epoch_ms % 1000) * 1_000_000) as u32`, where the remainder has the sign of the time.
abbrev nsecs_of : ℤ → ℕ
nsecs_of (pos n) = u32 (n % 1000 * 1_000_000)
nsecs_of (negsuc n) = u32 (2 ^ 32 - u32 (suc n % 1000 * 1_000_000))

unfoldable pub format_epoch_ms_to_iso8601 : (ℤ → ℕ → Option String) → ℤ → String
format_epoch_ms_to_iso8601 rfc3339 epoch_ms =
    get_or (rfc3339 (div_ℤ epoch_ms 1000) (nsecs_of epoch_ms)) "invalid"

pub record TickMessage (F : Type 0) : Type 0 where
  pub epoch_ms : ℤ
  pub iso8601 : String
  pub is_stale : Bool
  pub staleness_secs : ℕ
  pub message : String
  pub sequence : ℕ
  pub source : Source
  pub serve_state : ServeState
  pub uncertainty_ms : Option F
  pub staleness_ms : Option ℕ

pub data Message (F : Type 0) : Type 0 where
  welcome : (update_interval_ms max_duration_secs : ℕ) → Message F
  tick : TickMessage F → Message F
  no_sync : (message : String) (sequence : ℕ) → Message F
  close : Message F

pub record Tick : Type 0 where
  pub at_now : Instant
  pub at_quality : QualityReadings
  pub sends : Bool

-- What a task has done in some ticks: the state, the messages that it gave to the socket, and
-- whether it has ended.
pub record Stream (F : Type 0) : Type 0 where
  pub app : AppState F
  pub messages : List (Message F)
  pub ended : Bool

module _ {F : Type 0} ⦃fl : Float F⦄ (rfc3339 : ℤ → ℕ → Option String) where
  abbrev tick_message : ℤ → ℕ → TimeQuality F → AppState F → Message F
  tick_message epoch_ms count quality s =
      let is_stale = not (is_ok quality.serve_state) in
      tick (record {
        epoch_ms = epoch_ms;
        iso8601 = format_epoch_ms_to_iso8601 rfc3339 epoch_ms;
        is_stale = is_stale;
        staleness_secs = get_or quality.staleness_ms 0 / 1000;
        message = if is_stale then s.config.messages.ok_cache else s.config.messages.ok;
        sequence = count;
        source = quality.source;
        serve_state = quality.serve_state;
        uncertainty_ms = quality.uncertainty_ms;
        staleness_ms = quality.staleness_ms;
      })

  abbrev pub on_time : Tick → ℕ → Option ℤ → AppState F → AppState F × Message F
  on_time t count none s = (s, no_sync s.config.messages.error_no_sync count)
  on_time t count (some epoch_ms) s =
      let (s, quality) = compute_quality t.at_quality s in
      (s, tick_message epoch_ms count quality s)

  -- One update: the state after it, and its message.
  unfoldable pub next_update : Tick → ℕ → AppState F → AppState F × Message F
  unfolding format_epoch_ms_to_iso8601
  next_update t count s =
      let (timebase, now) = now_ms t.at_now s.timebase in
      on_time t count now (record s { timebase = timebase })

  abbrev ends_with : List (Message F) → AppState F → Stream F
  ends_with messages s = record { app = s; messages = messages; ended = true }

  abbrev onto : Message F → Stream F → Stream F
  onto m r = record { app = r.app; messages = m ∷ r.messages; ended = r.ended }

  -- The task that sends, from its count on, over the ticks that have come.
  unfoldable pub send_updates : (max_updates count : ℕ) → List Tick → AppState F → Stream F
  unfolding next_update
  send_updates max_updates count [] s = record { app = s; messages = []; ended = false }
  send_updates max_updates count (t ∷ ts) s =
      let (s', m) = next_update t count s in
      let rest = send_updates max_updates (u64 (count + 1)) ts s' in
      if leb max_updates count
      then ends_with (close ∷ []) s
      else if t.sends
      then onto m rest
      else ends_with (m ∷ close ∷ []) s'

  -- A connection, which ends at once if the welcome cannot be sent.
  unfoldable pub websocket_connection : Bool → List Tick → AppState F → Stream F
  unfolding send_updates
  websocket_connection welcomes ticks s =
      let ws = s.config.ws in
      let greeting = welcome ws.update_interval_ms ws.max_duration_secs in
      let updates =
        send_updates (compute_max_updates ws.max_duration_secs ws.update_interval_ms) 0 ticks s in
      if welcomes then onto greeting updates else ends_with (greeting ∷ []) s
