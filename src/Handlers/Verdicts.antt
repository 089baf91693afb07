-- ===== src/Handlers/Verdicts.antt =====
-- src/http/handlers.rs: what `/time` and `/time/full` answer.
use ntp_time_json_api.Common.{
  ◌≡◌, refl, sym, ◌∙◌, true, false, not, Bool, Option, none, some, String, Bool-cases, inl, inr,
  arith, if◌then◌else◌,
}
use ntp_time_json_api.Common.Int.{ℤ, pos}
use ntp_time_json_api.Common.Float.{Float}
use ntp_time_json_api.Samples.{Instant, SyncQuality}
use ntp_time_json_api.TimeBase.{TimeBase, now_ms, ntp_path, serve, has_synced, is_manual_active}
use ntp_time_json_api.TimeCache.{TimeCache, time_json, update, get_json}
use ntp_time_json_api.State.{
  ServeState, TimeQuality, AppState, QualityReadings, ManualOverrideState, judge, manual_quality,
  ntp_quality, without_override, with_override, compute_quality,
}
use ntp_time_json_api.Responses.{
  Body, Response, QualityHeaders, FullResponse, cached, time_value, failure, into_response, is_ok,
}
use ntp_time_json_api.Handlers.{
  RequestReadings, refuses, headers_of, respond, serve_known, serve_time, full_time,
  build_time_response, build_system_clock_response, time_handler, time_full_handler,
}

-- Reading the time and asking for the override do not change what the other says.
now_ms-is_manual_active :
    (t u : Instant) (tb : TimeBase)
    → u ≡ t
    → (now_ms t (is_manual_active u tb).0).1 ≡ (now_ms t tb).1
unfolding now_ms ntp_path serve is_manual_active
now_ms-is_manual_active t u tb same = ground arith

is_manual_active-now_ms :
    (t u : Instant) (tb : TimeBase)
    → u ≡ t
    → (is_manual_active u (now_ms t tb).0).1 ≡ (is_manual_active u tb).1
unfolding now_ms ntp_path serve is_manual_active
is_manual_active-now_ms t u tb same = ground arith

has_synced-now_ms : (t : Instant) (tb : TimeBase) → has_synced (now_ms t tb).0 ≡ has_synced tb
unfolding now_ms ntp_path serve has_synced
has_synced-now_ms t tb = ground arith

has_synced-is_manual_active :
    (t : Instant) (tb : TimeBase) → has_synced (is_manual_active t tb).0 ≡ has_synced tb
unfolding has_synced is_manual_active
has_synced-is_manual_active t tb = ground arith

-- The text for a time that is `ok`, or is not.
text_of :
    (is_good : Bool) (now : Instant) (ms : ℤ) (c : TimeCache)
    → get_json (not is_good) (update now ms (not is_good) c)
      ≡ time_json ms (if is_good then c.message_ok else c.message_ok_cache)
unfolding get_json update
text_of true now ms c = refl
text_of false now ms c = refl

module _ {F : Type 0} ⦃fl : Float F⦄ where
  -- The quality sees of the time base only the override and whether there was a sync.
  module _ (at : QualityReadings) (s : AppState F) (tb tb' : TimeBase)
      (same : has_synced tb ≡ has_synced tb') where
    without_override-timebase :
        (o : Option SyncQuality)
        → without_override at (record s { timebase = tb }) o
          ≡ without_override at (record s { timebase = tb' }) o
    unfolding ntp_quality judge
    without_override-timebase none = rw same
    without_override-timebase (some q) = refl

    with_override-timebase :
        (o : Option ManualOverrideState)
        → with_override at (record s { timebase = tb }) o
          ≡ with_override at (record s { timebase = tb' }) o
    unfolding manual_quality
    with_override-timebase none = without_override-timebase s.last_sync_quality
    with_override-timebase (some ov) = refl

  compute_quality-timebase :
      (at : QualityReadings) (s : AppState F) (tb : TimeBase)
      → (is_manual_active at.at_manual tb).1 ≡ (is_manual_active at.at_manual s.timebase).1
      → has_synced tb ≡ has_synced s.timebase
      → (compute_quality at (record s { timebase = tb })).1 ≡ (compute_quality at s).1
  unfolding compute_quality
  compute_quality-timebase at s tb e k =
      let left = (is_manual_active at.at_manual tb).0 in
      let right = (is_manual_active at.at_manual s.timebase).0 in
      let same : has_synced left ≡ has_synced right =
        has_synced-is_manual_active at.at_manual tb
        ∙ k
        ∙ sym (has_synced-is_manual_active at.at_manual s.timebase) in
      rw
        (
          e,
          with_override-timebase at s left right same s.override_state,
          without_override-timebase at s left right same s.last_sync_quality,
        )
        refl

  -- The message that `/time` gives with a time of this state.
  abbrev pub cached_message : AppState F → ServeState → String
  cached_message s state =
      if is_ok state then s.time_cache.message_ok else s.time_cache.message_ok_cache

  -- A body of `/time` says what `/time/full` says.
  abbrev pub Tells : AppState F → Body F → FullResponse F → Type 0
  Tells s (cached json) full =
      (full.status ≡ 200)
      × (json ≡ time_json full.epoch_ms (cached_message s full.quality.serve_state))
  Tells s (time_value message status epoch_ms) full =
      (full.status ≡ 200) × (status ≡ 200) × (message ≡ full.message) × (epoch_ms ≡ full.epoch_ms)
  Tells s (failure message status error state) full =
      (full.status ≡ 503) × (status ≡ 503) × (message ≡ full.message) × (full.epoch_ms ≡ pos 0)

  abbrev pub HeadersTell : Option (QualityHeaders F) → FullResponse F → Type 0
  HeadersTell none full = full.status ≡ 503
  HeadersTell (some headers) full = headers ≡ headers_of full.quality

  pub record Agrees (s : AppState F) (r : Response F) (full : FullResponse F) : Type 0 where
    pub status : r.status ≡ full.status
    pub tells : Tells s r.body full
    pub headers_tell : HeadersTell r.headers full

  module _ (at : RequestReadings) (s : AppState F) (tb tb' : TimeBase) where
    serve_known-Agrees :
        (ms : ℤ) (q : TimeQuality F)
        → Agrees s
            (respond (serve_known at ms q (record s { timebase = tb })).1)
            (full_time at.system (some ms) q (record s { timebase = tb' }))
    unfolding serve_known build_time_response into_response update get_json
    serve_known-Agrees ms q = elim (Bool-cases (refuses s q)) [
      | inl stopped ↦
          rw stopped
            (record { status = refl; tells = (refl, refl, refl, refl); headers_tell = refl })
      | inr served ↦ rw served (record {
        status = refl;
        tells = (refl, text_of (is_ok q.serve_state) at.at_cache ms s.time_cache);
        headers_tell = refl;
      })
    ]

  compute_quality-split :
      (at : QualityReadings) (s : AppState F)
      → compute_quality at s ≡ (
        record s { timebase = (is_manual_active at.at_manual s.timebase).0 },
        (compute_quality at s).1,
      )
  unfolding compute_quality
  compute_quality-split at s = refl

  serve_time-Agrees :
      (at : RequestReadings) (s : AppState F) (tb tb' : TimeBase) (o : Option ℤ) (q : TimeQuality F)
      → (compute_quality at.at_quality (record s { timebase = tb })).1 ≡ q
      → Agrees s
          (respond (serve_time at o (record s { timebase = tb })).1)
          (full_time at.system o q (record s { timebase = tb' }))
  unfolding serve_time build_system_clock_response into_response
  serve_time-Agrees at s tb tb' none q e =
      rw (compute_quality-split at.at_quality (record s { timebase = tb }), e)
        (elim (Bool-cases s.config.ntp.require_sync) [
          | inl strict ↦
              rw strict
                (record { status = refl; tells = (refl, refl, refl, refl); headers_tell = refl })
          | inr lax ↦
              rw lax
                (record { status = refl; tells = (refl, refl, refl, refl); headers_tell = refl })
        ])
  serve_time-Agrees at s tb tb' (some ms) q e =
      rw (compute_quality-split at.at_quality (record s { timebase = tb }), e)
        (serve_known-Agrees at s (is_manual_active at.at_quality.at_manual tb).0 tb' ms q)

  -- Where both look for the override when they read the time, `/time` and `/time/full` answer with
  -- the same status, the same time, and the same quality in headers and body.
  pub time_handler-time_full_handler :
      (at : RequestReadings) (s : AppState F)
      → at.at_quality.at_manual ≡ at.at_now
      → Agrees s (respond (time_handler at s).1) (time_full_handler at s).1
  unfolding time_handler time_full_handler
  time_handler-time_full_handler at s same =
      let manual = at.at_quality.at_manual in
      let tb = (now_ms at.at_now s.timebase).0 in
      let tb' = (now_ms at.at_now (is_manual_active manual s.timebase).0).0 in
      let same_quality =
        compute_quality-timebase at.at_quality s tb
          (is_manual_active-now_ms at.at_now manual s.timebase same)
          (has_synced-now_ms at.at_now s.timebase) in
      rw
        (
          compute_quality-split at.at_quality s,
          now_ms-is_manual_active at.at_now manual s.timebase same,
        )
        (serve_time-Agrees at s tb tb' (now_ms at.at_now s.timebase).1
          (compute_quality at.at_quality s).1 same_quality)
