-- ===== src/Sync/Round.antt =====
-- src/ntp/sync.rs: `NtpSyncer` and one round over all its servers.
-- The client is injected, so it is an argument; a task that it makes panic does not finish. The
-- answers are recorded in the order of the servers, each with its own reading of the clock.
use ntp_time_json_api.Common.{
  ℕ, suc, ◌*◌, Option, none, some, List, [], ◌∷◌, ◌++◌, map, String, Result, ok, err,
}
use mathlib.Core.Option
use mathlib.Core.Option.{get_or}
use ntp_time_json_api.Common.Int.{pos}
use ntp_time_json_api.Common.Float.{Float}
use ntp_time_json_api.Common.Maps.{Entries, lookup, insert, adjust}
use ntp_time_json_api.Samples.{Instant, Duration, NtpSample, NtpResult, SyncResult}
use ntp_time_json_api.Stats
use ntp_time_json_api.Stats.{ServerStats, record_offset, record_success, record_failure, jitter_ms}
use ntp_time_json_api.Config.{NtpConfig}
use ntp_time_json_api.Selection.{JitterMap}
use ntp_time_json_api.Selection.Select.{SelectionDiagnostics, SelectionOutput, select}
use ntp_time_json_api.Selection.Providers.{provider_group}
use ntp_time_json_api.Sync.{query_with_client, sticky_select}

pub record SyncOutcome (F : Type 0) : Type 0 where
  pub result : SyncResult
  pub diagnostics : SelectionDiagnostics F
  pub jitter_ms : ℕ

pub record NtpSyncer (F : Type 0) : Type 0 where
  pub config : NtpConfig F
  pub stats : Entries ServerStats
  pub current_server : Option String
  pub last_diagnostics : Option (SelectionDiagnostics F)

abbrev stats_map : List String → Entries ServerStats → Entries ServerStats
stats_map [] m = m
stats_map (server ∷ servers) m = stats_map servers (insert server (Stats.new server) m)

unfoldable pub with_client : {F : Type 0} → NtpConfig F → NtpSyncer F
with_client config = record {
  config = config;
  stats = stats_map config.servers [];
  current_server = none;
  last_diagnostics = none;
}

-- What a task comes to when it is awaited.
pub data Task {ℓ} (A : Type ℓ) : Type ℓ where
  panicked : Task A
  done : A → Task A

pub data SyncError : Type 0 where
  all_servers_failed no_quorum : SyncError

-- A round ends with its result, or the selection panics.
pub data SyncEnd (F : Type 0) : Type 0 where
  selection_panics : SyncEnd F
  fails : SyncError → SyncEnd F
  succeeds : SyncOutcome F → SyncEnd F

abbrev pub sync_result : NtpResult → SyncResult
sync_result r = record {
  epoch_ms = r.epoch_ms;
  server = r.server;
  rtt = r.rtt;
  instant = r.instant;
  offset_ms = r.offset_ms;
  t1_client_send_ms = r.t1_client_send_ms;
  t2_server_recv_ms = r.t2_server_recv_ms;
  t3_server_send_ms = r.t3_server_send_ms;
  t4_client_recv_ms = r.t4_client_recv_ms;
  root_delay_ms = r.root_delay_ms;
  root_dispersion_ms = r.root_dispersion_ms;
  stratum = r.stratum;
  leap = r.leap;
  precision_log2 = r.precision_log2;
  reference_id = r.reference_id;
  timing_source = r.timing_source;
}

module _ {F : Type 0} {Error : Type 0} (client : String → Duration → Task (Result NtpSample Error))
    (config : NtpConfig F) where
  -- The task that queries one server.
  abbrev pub finish :
      String → Duration → Task (Result NtpSample Error) → Task (Result NtpResult Error)
  finish server timeout_duration panicked = panicked
  finish server timeout_duration (done answer) = done (
      query_with_client (λ _ _. answer) server timeout_duration config.offset_bias_ms
        config.asymmetry_bias_ms)

  unfoldable pub query_task : String → Task (Result NtpResult Error)
  query_task server =
      let timeout_duration = config.timeout_secs * 1_000_000_000 in
      finish server timeout_duration (client server timeout_duration)

  unfoldable pub record_server_failure :
      Instant → String → Entries ServerStats → Entries ServerStats
  record_server_failure now server stats =
      adjust server (λ st. (record_failure now config.max_consecutive_failures st).0) stats

  abbrev pub record_answer : Instant → NtpResult → ServerStats → ServerStats
  record_answer now r st = record_offset r.offset_ms (record_success now r.rtt st).0

  -- One awaited task: the statistics after it, and the result that it adds.
  abbrev pub on_task :
      Instant
      → String
      → Task (Result NtpResult Error)
      → Entries ServerStats
      → Entries ServerStats × List NtpResult
  on_task now server (done (ok r)) stats = (adjust server (record_answer now r) stats, r ∷ [])
  on_task now server (done (err e)) stats = (record_server_failure now server stats, [])
  on_task now server panicked stats = (record_server_failure now server stats, [])

  unfoldable pub collect :
      (ℕ → Instant) → ℕ → List String → Entries ServerStats → Entries ServerStats × List NtpResult
  unfolding query_task record_server_failure
  collect at i [] stats = (stats, [])
  collect at i (server ∷ servers) stats =
      let (stats, found) = on_task (at i) server (query_task server) stats in
      let (stats, results) = collect at (suc i) servers stats in (stats, found ++ results)

-- `if let Some(new_server) = new_sticky { current_server = Some(new_server) }`
abbrev pub kept_sticky : Option String → Option String → Option String
kept_sticky none current = current
kept_sticky (some new_server) current = some new_server

abbrev pub jitter_by_server : (F : Type 0) ⦃fl : Float F⦄ → Entries ServerStats → JitterMap
jitter_by_server F stats =
    map (λ (entry : String × ServerStats). (entry.0, jitter_ms F entry.1)) stats

module _ {F : Type 0} ⦃fl : Float F⦄ where
  -- A selected result, and the choice to stay with a server.
  unfoldable pub conclude :
      NtpSyncer F → JitterMap → SelectionOutput F → Option NtpResult → NtpSyncer F × SyncEnd F
  conclude s jitters output none = (s, fails no_quorum)
  conclude s jitters output (some best) =
      let (selected_result, new_sticky) =
        sticky_select output.agreers best s.current_server (pos 50) in
      (
        record s { current_server = kept_sticky new_sticky s.current_server },
        succeeds (record {
          result = sync_result selected_result;
          diagnostics = output.diagnostics;
          jitter_ms = get_or (lookup selected_result.server jitters) 0;
        }),
      )

  abbrev pub on_selection :
      NtpSyncer F → JitterMap → Option (SelectionOutput F) → NtpSyncer F × SyncEnd F
  on_selection s jitters none = (s, selection_panics)
  on_selection s jitters (some output) =
      conclude (record s { last_diagnostics = some output.diagnostics }) jitters output
        output.selected

  abbrev pub on_results : Instant → NtpSyncer F → List NtpResult → NtpSyncer F × SyncEnd F
  on_results now s [] = (s, fails all_servers_failed)
  on_results now s (r ∷ rs) =
      let jitters = jitter_by_server F s.stats in
      let group = provider_group s.config.selection.provider_groups in
      on_selection s jitters (select group now (r ∷ rs) jitters s.config.selection)

  -- The readings: one for each answer that is recorded, and one for the selection.
  unfoldable pub sync :
      {Error : Type 0}
      → (String → Duration → Task (Result NtpSample Error))
      → (ℕ → Instant)
      → Instant
      → NtpSyncer F
      → NtpSyncer F × SyncEnd F
  unfolding collect conclude
  sync client at now s =
      let (stats, results) = collect client s.config at 0 s.config.servers s.stats in
      on_results now (record s { stats = stats }) results

  unfoldable pub get_server_jitter : String → NtpSyncer F → ℕ
  get_server_jitter server s = get_or (Option.map (λ st. jitter_ms F st) (lookup server s.stats)) 0
