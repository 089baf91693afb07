-- ===== src/Tests/Rounds.antt =====
-- src/ntp/sync.rs and src/main.rs: rounds of the syncer and turns of the loop at concrete inputs.
use ntp_time_json_api.Common.{
  ℕ, Option, ◌+◌, ap, sym, ◌∙◌, arith, if◌then◌else◌, ◌≡◌, ◌≢◌, refl, true, false, some, none, [],
  ◌∷◌, String, Result, ok,
}
use mathlib.Core.Option
use ntp_time_json_api.Common.Int.{ℤ, pos, negsuc}
use ntp_time_json_api.Common.Float.{int_float, number}
use ntp_time_json_api.Common.Maps.{lookup, same_text}
use text.Mathlib.TextPositions.{eq_refl}
use ntp_time_json_api.Samples.{Instant, Duration, NtpSample}
use ntp_time_json_api.Sync.Round.{
  NtpSyncer, SyncOutcome, Task, done, panicked, with_client, query_task, sync, fails, succeeds,
  no_quorum,
}
use ntp_time_json_api.Sync.Outcome.{Ends, sync-Ends}
use ntp_time_json_api.Sync.Answers.{after_task}
use ntp_time_json_api.Sync.Recorded.{lookup-sync}
use ntp_time_json_api.State
use ntp_time_json_api.State.{AppState}
use ntp_time_json_api.Samples.{measured}
use ntp_time_json_api.Selection.Select.{SelectionDiagnostics, SelectionState, no_diagnostics}
use ntp_time_json_api.Main.{TurnReadings, sync_turn}
use ntp_time_json_api.Main.Serving.{with_app, stays, goes, turns, deletes, sync_turn-time_handler}
use ntp_time_json_api.Admin.{Service, delete_override}
use ntp_time_json_api.Handlers.{RequestReadings, respond, time_handler}
use ntp_time_json_api.Persist.{PersistedState}
use mathlib.Core.Option.{get_or}
use ntp_time_json_api.Main.Turns.{Turned, sync_turn-Turned}
use ntp_time_json_api.Tests.States.{fresh}
use ntp_time_json_api.Tests.States.{settings, late}
use ntp_time_json_api.Config.{NtpConfig}

abbrev sample : NtpSample
sample = record {
  server = "a.test:123";
  t1_unix_ms = pos 100_000;
  t2_unix_ms = pos 100_013;
  t3_unix_ms = pos 100_014;
  t4_unix_ms = pos 100_021;
  t1_instant = 1_000_000_000;
  t4_instant = 1_021_000_000;
  offset_ms = pos 3;
  delay_ms = pos 20;
  root_delay_ms = 4;
  root_dispersion_ms = 5;
  precision_log2 = negsuc 19;
  stratum = 1;
  leap = 0;
  reference_id = 0;
  poll = pos 4;
}

-- The second server does not answer.
abbrev client : String → Duration → Task (Result NtpSample String)
client server timeout = if same_text server "a.test:123" then done (ok sample) else panicked

abbrev two_servers : NtpConfig ℤ
two_servers = record settings.ntp { servers = "a.test:123" ∷ "b.test:123" ∷ [] }

abbrev syncer : NtpSyncer ℤ
syncer = with_client two_servers

abbrev at : ℕ → Instant
at i = 1_021_000_000 + i

sync-Ends_example : Ends client at 1_022_000_000 syncer (sync client at 1_022_000_000 syncer)
unfolding with_client
sync-Ends_example = sync-Ends client at 1_022_000_000 syncer (λ e. ground (arith, e))

abbrev second : String
second = "b.test:123"

a_is_not_b : "a.test:123" ≢ second
a_is_not_b e =
    let same : same_text "a.test:123" "b.test:123" ≡ true =
      ap (same_text "a.test:123") (sym e) ∙ eq_refl "a.test:123" in
    ground (arith, same)

lookup-sync_example :
    lookup "b.test:123" (sync client at 1_022_000_000 syncer).0.stats
    ≡ Option.map
        (after_task two_servers 1_021_000_001 (query_task client two_servers "b.test:123"))
        (lookup "b.test:123" syncer.stats)
unfolding with_client
lookup-sync_example =
    lookup-sync client at 1_022_000_000 syncer "b.test:123" ("a.test:123" ∷ []) [] refl
      (a_is_not_b, tt) tt

abbrev chosen : SelectionDiagnostics ℤ
chosen = record {
  quorum_size = 1;
  candidate_count = 1;
  rejected_count = 0;
  rejected_sources = [];
  combined_uncertainty_ms = some (pos 8);
  selected_server = some "a.test:123";
  single_provider = true;
  selection_state = SelectionState.ok;
  max_root_distance_ms = number (pos 500);
  min_quorum = 1;
  weighted_median_offset_ms = some (pos 3);
  candidate_lambdas = ("a.test:123", pos 21) ∷ [];
  intersection = no_diagnostics;
}

-- One turn of the loop with an outcome, and one that failed after it.
abbrev pub outcome : SyncOutcome ℤ
outcome = record {
  result = record {
    epoch_ms = pos 100_024;
    server = "a.test:123";
    rtt = 20_000_000;
    instant = 1_021_000_000;
    offset_ms = pos 3;
    t1_client_send_ms = pos 100_000;
    t2_server_recv_ms = pos 100_013;
    t3_server_send_ms = pos 100_014;
    t4_client_recv_ms = pos 100_021;
    root_delay_ms = 4;
    root_dispersion_ms = 5;
    stratum = 1;
    leap = 0;
    precision_log2 = negsuc 19;
    reference_id = 0;
    timing_source = measured;
  };
  diagnostics = chosen;
  jitter_ms = 2;
}

abbrev readings : TurnReadings
readings = record {
  at_update = 1_022_000_000;
  at_success = 1_022_000_001;
  system_sync = pos 100_025_000_000;
  at_sync = 1_022_000_002;
  at_quality = late;
  system_persist = pos 100_026_000_000;
  at_staleness = 201_000_000_001;
}

sync_turn-Turned_example :
    Turned readings (succeeds outcome) fresh (sync_turn readings (succeeds outcome) none fresh)
sync_turn-Turned_example = sync_turn-Turned readings (succeeds outcome) none fresh

abbrev synced : AppState ℤ × Option (PersistedState ℤ)
synced = get_or (sync_turn readings (succeeds outcome) none fresh) (fresh, none)

synced_turn : sync_turn readings (succeeds outcome) none fresh ≡ some synced
unfolding sync_turn
synced_turn = refl

abbrev failed : AppState ℤ × Option (PersistedState ℤ)
failed = get_or (sync_turn readings (fails no_quorum) (some chosen) synced.0) (fresh, none)

failed_turn : sync_turn readings (fails no_quorum) (some chosen) synced.0 ≡ some failed
unfolding sync_turn
failed_turn = refl

abbrev pub request : RequestReadings
request = record {
  at_now = 202_000_000_000;
  at_quality = late;
  at_cache = 202_000_000_001;
  system = pos 301_000_000_000;
  latency_us = 120;
  min_turns = record { others = []; fails = false } ∷ [];
  max_turns = record { others = []; fails = false } ∷ [];
}

abbrev service : Service ℤ
service = record { app = synced.0; waiting = []; spawned = 0 }

abbrev started : Service ℤ
started = record { app = fresh; waiting = []; spawned = 0 }

abbrev after_failure : Service ℤ
after_failure = with_app service failed.0

abbrev after_delete : Service ℤ
after_delete = (delete_override 202_000_000_000 late after_failure).0

-- A turn that fails, the end of an override, and a request.
sync_turn-time_handler_example : (respond (time_handler request after_delete.app).1).status ≡ 200
unfolding State.new
sync_turn-time_handler_example =
    sync_turn-time_handler readings outcome none started after_delete synced.0 synced.1 request refl
      synced_turn
      (goes
        (goes stays (turns readings (fails no_quorum) (some chosen) failed.0 failed.1 failed_turn))
        (deletes 202_000_000_000 late))
