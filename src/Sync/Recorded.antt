-- ===== src/Sync/Recorded.antt =====
-- src/ntp/sync.rs: what a round records of each server, however it ends.
use ntp_time_json_api.Common.{
  ℕ, ◌≡◌, ◌≢◌, refl, ap, ◌∙◌, subst, Option, none, some, List, [], ◌∷◌, ◌++◌, String, All, length,
  Result, arith,
}
use mathlib.Core.Option
use ntp_time_json_api.Common.Float.{Float}
use ntp_time_json_api.Common.Maps.{lookup}
use ntp_time_json_api.Samples.{Instant, Duration, NtpSample, NtpResult}
use ntp_time_json_api.Selection.{JitterMap}
use ntp_time_json_api.Selection.Select.{SelectionOutput, select}
use ntp_time_json_api.Selection.Providers.{provider_group}
use ntp_time_json_api.Sync.Round.{
  Task, NtpSyncer, query_task, collect, jitter_by_server, conclude, on_selection, on_results, sync,
}
use ntp_time_json_api.Sync.Answers.{after_task, lookup-collect}

module _ {F : Type 0} ⦃fl : Float F⦄ where
  conclude-stats :
      (s : NtpSyncer F) (jitters : JitterMap) (output : SelectionOutput F) (best : Option NtpResult)
      → (conclude s jitters output best).0.stats ≡ s.stats
  unfolding conclude
  conclude-stats s jitters output none = refl
  conclude-stats s jitters output (some best) = refl

  on_selection-stats :
      (s : NtpSyncer F) (jitters : JitterMap) (o : Option (SelectionOutput F))
      → (on_selection s jitters o).0.stats ≡ s.stats
  on_selection-stats s jitters none = refl
  on_selection-stats s jitters (some output) =
      conclude-stats (record s { last_diagnostics = some output.diagnostics }) jitters output
        output.selected

  on_results-stats :
      (now : Instant) (s : NtpSyncer F) (results : List NtpResult)
      → (on_results now s results).0.stats ≡ s.stats
  on_results-stats now s [] = refl
  on_results-stats now s (r ∷ rs) =
      let jitters = jitter_by_server F s.stats in
      let group = provider_group s.config.selection.provider_groups in
      on_selection-stats s jitters (select group now (r ∷ rs) jitters s.config.selection)

  -- However a round ends, the statistics of a server that is configured once are updated once, by
  -- what its own task came to: a success with its round trip and offset where it answered, and one
  -- failure where it did not or panicked.
  pub lookup-sync :
      {Error : Type 0} (client : String → Duration → Task (Result NtpSample Error))
      (at : ℕ → Instant) (now : Instant) (s : NtpSyncer F) (x : String) (before after : List String)
      → s.config.servers ≡ before ++ x ∷ after
      → All (λ server. server ≢ x) before
      → All (λ server. server ≢ x) after
      → lookup x (sync client at now s).0.stats
        ≡ Option.map
            (after_task s.config (at (length before)) (query_task client s.config x))
            (lookup x s.stats)
  unfolding sync
  lookup-sync client at now s x before after e h k =
      let answers = collect client s.config at 0 s.config.servers s.stats in
      ap (lookup x) (on_results-stats now (record s { stats = answers.0 }) answers.1)
      ∙ ap (λ l. lookup x (collect client s.config at 0 l s.stats).0) e
      ∙ subst
          (λ i.
            lookup x (collect client s.config at 0 (before ++ x ∷ after) s.stats).0
            ≡ Option.map (after_task s.config (at i) (query_task client s.config x))
                (lookup x s.stats))
          (omega arith) (lookup-collect client s.config at x before after 0 s.stats h k)
