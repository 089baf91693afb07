-- ===== src/Sync/Answers.antt =====
-- src/ntp/sync.rs: what a round takes from its answers, and what it records of each server.
use ntp_time_json_api.Common.{
  if◌then◌else◌, ℕ, suc, ◌+◌, ◌*◌, ◌≡◌, ◌≢◌, refl, sym, List, [], ◌∷◌, ◌++◌, String, length, All,
  All-append, subst, Result, ok, err, arith,
}
use mathlib.Core.List.{Memᴰ}
use mathlib.Core.Option
use text.Mathlib.TextEquality.{eq_iff}
use text.Mathlib.TextPositions.{eq_refl}
use ntp_time_json_api.Common.Maps.{Entries, lookup, same_text, lookup-adjust}
use ntp_time_json_api.Samples.{Instant, Duration, NtpSample, NtpResult}
use ntp_time_json_api.Stats.{ServerStats, record_offset, record_success, record_failure}
use ntp_time_json_api.Config.{NtpConfig}
use ntp_time_json_api.Sync.{query_with_client}
use ntp_time_json_api.Sync.Round.{
  Task, panicked, done, finish, query_task, record_server_failure, on_task, collect,
}

module _ {Error : Type 0} (client : String → Duration → Task (Result NtpSample Error)) where
  -- A result that one of the servers gave in this round.
  abbrev pub IsAnswer : {F : Type 0} → NtpConfig F → List String → NtpResult → Type 0
  IsAnswer config servers r =
      Memᴰ r.server servers × (query_task client config r.server ≡ done (ok r))

  module _ {F : Type 0} (config : NtpConfig F) (at : ℕ → Instant) where
    finish-server :
        (server : String) (timeout_duration : Duration) (t : Task (Result NtpSample Error))
        (r : NtpResult)
        → finish client config server timeout_duration t ≡ done (ok r)
        → r.server ≡ server
    unfolding query_with_client
    finish-server server timeout_duration panicked r h = absurd (ground arith)
    finish-server server timeout_duration (done (err e)) r h = absurd (ground arith)
    finish-server server timeout_duration (done (ok sample)) r h = ground arith

    query_task-server :
        (server : String) (r : NtpResult)
        → query_task client config server ≡ done (ok r)
        → r.server ≡ server
    unfolding query_task
    query_task-server server r h =
        let timeout_duration = config.timeout_secs * 1_000_000_000 in
        finish-server server timeout_duration (client server timeout_duration) r h

    on_task-IsAnswer :
        (all : List String) (server : String) (now : Instant) (t : Task (Result NtpResult Error))
        (stats : Entries ServerStats)
        → Memᴰ server all
        → query_task client config server ≡ t
        → All (IsAnswer config all) (on_task client config now server t stats).1
    on_task-IsAnswer all server now panicked stats m e = tt
    on_task-IsAnswer all server now (done (err failure)) stats m e = tt
    on_task-IsAnswer all server now (done (ok r)) stats m e =
        let same = sym (query_task-server server r e) in
        (subst (λ x. Memᴰ x all × (query_task client config x ≡ done (ok r))) same (m, e), tt)

    pub collect-IsAnswer :
        (all servers : List String) (i : ℕ) (stats : Entries ServerStats)
        → All (λ server. Memᴰ server all) servers
        → All (IsAnswer config all) (collect client config at i servers stats).1
    unfolding collect
    collect-IsAnswer all [] i stats h = tt
    collect-IsAnswer all (server ∷ servers) i stats h =
        let (now_stats, found) =
          on_task client config (at i) server (query_task client config server) stats in
        All-append (IsAnswer config all) found
          (collect client config at (suc i) servers now_stats).1
          (on_task-IsAnswer all server (at i) (query_task client config server) stats h.0 refl)
          (collect-IsAnswer all servers (suc i) now_stats h.1)

-- What a task does to the statistics of its server.
abbrev pub after_task :
    {F : Type 0} {Error : Type 0} (config : NtpConfig F) (now : Instant)
    → Task (Result NtpResult Error)
    → ServerStats
    → ServerStats
after_task config now panicked st = (record_failure now config.max_consecutive_failures st).0
after_task config now (done (err e)) st = (record_failure now config.max_consecutive_failures st).0
after_task config now (done (ok r)) st = record_offset r.offset_ms (record_success now r.rtt st).0

module _ {F : Type 0} {Error : Type 0} (client : String → Duration → Task (Result NtpSample Error))
    (config : NtpConfig F) (at : ℕ → Instant) (x : String) where
  lookup-on_task :
      (now : Instant) (server : String) (t : Task (Result NtpResult Error))
      (stats : Entries ServerStats)
      → lookup x (on_task client config now server t stats).0 ≡ (
          if same_text server x
          then Option.map (after_task config now t) (lookup x stats)
          else lookup x stats)
  unfolding record_server_failure
  lookup-on_task now server panicked stats = lookup-adjust server x _ stats
  lookup-on_task now server (done (err e)) stats = lookup-adjust server x _ stats
  lookup-on_task now server (done (ok r)) stats = lookup-adjust server x _ stats

  -- Servers of another name leave the statistics alone.
  lookup-collect_others :
      (servers : List String) (i : ℕ) (stats : Entries ServerStats)
      → All (λ server. server ≢ x) servers
      → lookup x (collect client config at i servers stats).0 ≡ lookup x stats
  unfolding collect
  lookup-collect_others [] i stats h = refl
  lookup-collect_others (server ∷ servers) i stats h =
      let t = query_task client config server in
      let rest =
        lookup-collect_others servers (suc i) (on_task client config (at i) server t stats).0 h.1 in
      ground (arith, rest, lookup-on_task (at i) server t stats, eq_iff server x)

  -- A server that is named once among the configured ones has its statistics updated once, by what
  -- its own task came to; where it answered, with a success and its offset, else with a failure.
  pub lookup-collect :
      (before after : List String) (i : ℕ) (stats : Entries ServerStats)
      → All (λ server. server ≢ x) before
      → All (λ server. server ≢ x) after
      → lookup x (collect client config at i (before ++ x ∷ after) stats).0
        ≡ Option.map
            (after_task config (at (length before + i)) (query_task client config x))
            (lookup x stats)
  unfolding collect
  lookup-collect [] after i stats h k =
      let t = query_task client config x in
      let stats' = (on_task client config (at i) x t stats).0 in
      let start : 0 + i ≡ i = omega arith in
      rw
        (
          start,
          lookup-collect_others after (suc i) stats' k,
          lookup-on_task (at i) x t stats,
          eq_refl x,
        )
        refl
  lookup-collect (server ∷ before) after i stats h k =
      let t = query_task client config server in
      let stats' = (on_task client config (at i) server t stats).0 in
      let later : suc (length before) + i ≡ length before + suc i = omega arith in
      let other : lookup x stats' ≡ lookup x stats =
        ground (arith, lookup-on_task (at i) server t stats, eq_iff server x, h.0) in
      rw (later, lookup-collect before after (suc i) stats' h.1 k, other) refl
