-- ===== src/Sync/Outcome.antt =====
-- src/ntp/sync.rs: how a round over all servers ends.
use ntp_time_json_api.Common.{
  ℕ, suc, ◌≤◌, ◌≡◌, ◌≢◌, ◌⊎◌, inl, inr, refl, sym, ap, true, Option, none, some, List, [], ◌∷◌, map,
  String, length, All, subst, if_intro, if_cases, Result, ok,
}
use mathlib.Core.List.{Memᴰ}
use text.Mathlib.TextEquality.{eq_iff}
use ntp_time_json_api.Common.Int.{pos, ℤ, leb_ℤ, ◌-i64◌}
use ntp_time_json_api.Common.Float.{Float}
use ntp_time_json_api.Common.Maps.{Entries}
use ntp_time_json_api.Samples.{Instant, Duration, NtpSample, NtpResult}
use ntp_time_json_api.Stats.{ServerStats}
use ntp_time_json_api.Marzullo.{ScoredResult}
use ntp_time_json_api.Selection.{gate}
use ntp_time_json_api.Selection.Select.{SelectionState, SelectionOutput, select}
use ntp_time_json_api.Selection.Kept.{All-map, All-both}
use ntp_time_json_api.Selection.Gates.{IsGated, self_members}
use ntp_time_json_api.Selection.Accepted.{Choice, refused, accepted, select-Choice}
use ntp_time_json_api.Selection.Providers.{provider_group}
use ntp_time_json_api.Sync.{
  same_server, find_server, with_found, sticky_select, stay_or_switch, rtt_millis,
}
use ntp_time_json_api.Sync.Answers.{IsAnswer, collect-IsAnswer}
use ntp_time_json_api.Sync.Round.{
  Task, NtpSyncer, SyncEnd, SyncOutcome, fails, succeeds, all_servers_failed, no_quorum,
  sync_result, collect, jitter_by_server, kept_sticky, conclude, on_selection, on_results, sync,
}

Mem-All {ℓ κ} : {A : Type ℓ} (P : A → Type κ) (xs : List A) (x : A) → All P xs → Memᴰ x xs → P x
Mem-All P [] x h m = elim m [ ]
Mem-All P (y ∷ xs) x h (Memᴰ.head e) = rw e h.0
Mem-All P (y ∷ xs) x h (Memᴰ.tail m) = Mem-All P xs x h.1 m

-- The choice to stay with a server: what holds of the best and of all agreers holds of the chosen
-- one, and the server to go on with is its server.
module _ (P : NtpResult → Type 0) where
  abbrev IsChosen : Option String → NtpResult × Option String → Type 0
  IsChosen current chosen = P chosen.0 × (kept_sticky chosen.1 current ≡ some chosen.0.server)

  stay_or_switch-IsChosen :
      (name : String) (kept best : NtpResult) (threshold : ℤ)
      → P kept
      → P best
      → same_server kept.server name ≡ true
      → IsChosen (some name) (stay_or_switch name kept best threshold)
  stay_or_switch-IsChosen name kept best threshold k b e =
      let own : kept.server ≡ name = (eq_iff kept.server name).0 e in
      let stays : IsChosen (some name) (kept, none) = (k, ap some (sym own)) in
      if_intro (IsChosen (some name)) (same_server best.server name) stays (
        if_intro (IsChosen (some name)) (leb_ℤ threshold (rtt_millis kept -i64 rtt_millis best))
          (b, refl) stays)

  with_found-IsChosen :
      (name : String) (agreers : List NtpResult) (best : NtpResult) (threshold : ℤ)
      → All P agreers
      → P best
      → IsChosen (some name) (with_found name (find_server name agreers) best threshold)
  with_found-IsChosen name [] best threshold h b = (b, refl)
  with_found-IsChosen name (r ∷ rs) best threshold h b =
      if_cases (λ o. IsChosen (some name) (with_found name o best threshold))
        (same_server r.server name) (stay_or_switch-IsChosen name r best threshold h.0 b)
        (λ _. with_found-IsChosen name rs best threshold h.1 b)

  sticky_select-IsChosen :
      (agreers : List NtpResult) (best : NtpResult) (current : Option String) (threshold : ℤ)
      → All P agreers
      → P best
      → IsChosen current (sticky_select agreers best current threshold)
  unfolding sticky_select
  sticky_select-IsChosen agreers best none threshold h b = (b, refl)
  sticky_select-IsChosen agreers best (some name) threshold h b =
      with_found-IsChosen name agreers best threshold h b

module _ {F : Type 0} ⦃fl : Float F⦄ {Error : Type 0}
    (client : String → Duration → Task (Result NtpSample Error)) (at : ℕ → Instant) (now : Instant)
    (s : NtpSyncer F) where
  abbrev pub answers : Entries ServerStats × List NtpResult
  answers = collect client s.config at 0 s.config.servers s.stats

  -- A configured server gave this result, and it passed the gates.
  abbrev pub IsTrusted : NtpResult → Type 0
  IsTrusted r =
      IsAnswer client s.config s.config.servers r
      × ((c : ScoredResult F) × (gate s.config.selection now (jitter_by_server F answers.0) r
            ≡ ok c))

  -- What the selection makes of the answers of this round.
  abbrev pub selection_of_round : Option (SelectionOutput F)
  selection_of_round =
      select (provider_group s.config.selection.provider_groups) now answers.1
        (jitter_by_server F answers.0) s.config.selection

  -- How a round ends.
  pub data Ends : NtpSyncer F × SyncEnd F → Type 0 where
    none_answered :
        (s' : NtpSyncer F)
        → answers.1 ≡ []
        → s'.current_server ≡ s.current_server
        → s'.last_diagnostics ≡ s.last_diagnostics
        → Ends (s', fails all_servers_failed)
    not_selected :
        (s' : NtpSyncer F) (out : SelectionOutput F)
        → answers.1 ≢ []
        → selection_of_round ≡ some out
        → out.selected ≡ none
        → s'.current_server ≡ s.current_server
        → s'.last_diagnostics ≡ some out.diagnostics
        → out.diagnostics.selection_state ≢ SelectionState.ok
        → Ends (s', fails no_quorum)
    selected :
        (s' : NtpSyncer F) (outcome : SyncOutcome F) (r : NtpResult) (out : SelectionOutput F)
        → selection_of_round ≡ some out
        → s.config.selection.min_quorum ≤ length out.agreers
        → All IsTrusted out.agreers
        → (out.selected ≡ some r) ⊎ Memᴰ r out.agreers
        → IsTrusted r
        → outcome.result ≡ sync_result r
        → outcome.diagnostics ≡ out.diagnostics
        → s'.current_server ≡ some r.server
        → s'.last_diagnostics ≡ some out.diagnostics
        → out.diagnostics.selection_state ≡ SelectionState.ok
        → Ends (s', succeeds outcome)

  abbrev Passes : List NtpResult → ScoredResult F → Type 0
  Passes results c =
      IsGated s.config.selection now (jitter_by_server F answers.0) c × Memᴰ c.result results

  -- The selected result or one of the agreers.
  abbrev IsFrom : SelectionOutput F → NtpResult → Type 0
  IsFrom out r = (out.selected ≡ some r) ⊎ Memᴰ r out.agreers

  -- From a scored result to a trusted one.
  passed :
      (results : List NtpResult) (c : ScoredResult F)
      → All (IsAnswer client s.config s.config.servers) results
      → Passes results c
      → IsTrusted c.result
  passed results c h p =
      (Mem-All (IsAnswer client s.config s.config.servers) results c.result h p.1, (c, p.0))

  passed-All :
      (results : List NtpResult) (cs : List (ScoredResult F))
      → All (IsAnswer client s.config s.config.servers) results
      → All (Passes results) cs
      → All IsTrusted (map (λ a. a.result) cs)
  passed-All results [] h p = tt
  passed-All results (c ∷ cs) h p = (passed results c h p.0, passed-All results cs h p.1)

  length-results : (cs : List (ScoredResult F)) → length (map (λ a. a.result) cs) ≡ length cs
  length-results [] = refl
  length-results (c ∷ cs) = ap suc (length-results cs)

  on_selection-Ends :
      (o : Option (SelectionOutput F))
      → answers.1 ≢ []
      → All (IsAnswer client s.config s.config.servers) answers.1
      → selection_of_round ≡ o
      → Choice (Passes answers.1) s.config.selection o
      → Ends (on_selection (record s { stats = answers.0 }) (jitter_by_server F answers.0) o)
  unfolding conclude
  on_selection-Ends none some_answer h made x = elim x [ ]
  on_selection-Ends (some out) some_answer h made (refused _ none_selected _ state) =
      subst
        (λ best. Ends (
          conclude (record s { stats = answers.0; last_diagnostics = some out.diagnostics })
            (jitter_by_server F answers.0) out best))
        (sym none_selected) (not_selected _ out some_answer made none_selected refl refl state)
  on_selection-Ends (some out) some_answer h made (accepted _ a) =
      let agreers : All IsTrusted out.agreers =
        subst (All IsTrusted) (sym a.listed) (passed-All answers.1 a.agreers h a.all_pass) in
      let members : All (IsFrom out) out.agreers =
        All-map (λ r m. inr m) out.agreers (self_members out.agreers) in
      let chosen =
        sticky_select-IsChosen (λ r. IsTrusted r × IsFrom out r) out.agreers a.best.result
          s.current_server (pos 50) (All-both IsTrusted (IsFrom out) out.agreers agreers members)
          (passed answers.1 a.best h a.best_passes, inl a.selected) in
      subst
        (λ best. Ends (
          conclude (record s { stats = answers.0; last_diagnostics = some out.diagnostics })
            (jitter_by_server F answers.0) out best))
        (sym a.selected)
        (selected _ _ (sticky_select out.agreers a.best.result s.current_server (pos 50)).0 out made
          (subst (λ l. s.config.selection.min_quorum ≤ length l) (sym a.listed)
            (subst (λ n. s.config.selection.min_quorum ≤ n) (sym (length-results a.agreers))
              a.enough))
          agreers chosen.0.1 chosen.0.0 refl refl chosen.1 refl a.state)

  on_results-Ends :
      (results : List NtpResult)
      → s.config.selection.min_quorum ≢ 0
      → answers.1 ≡ results
      → All (IsAnswer client s.config s.config.servers) results
      → Ends (on_results now (record s { stats = answers.0 }) results)
  on_results-Ends [] positive e h = none_answered _ e refl refl
  on_results-Ends (r ∷ rs) positive e h =
      let group = provider_group s.config.selection.provider_groups in
      let jitters = jitter_by_server F answers.0 in
      let o = select group now (r ∷ rs) jitters s.config.selection in
      on_selection-Ends o (λ bare. cc)
        (subst (All (IsAnswer client s.config s.config.servers)) (sym e) h)
        (ap (λ l. select group now l jitters s.config.selection) e)
        (subst (λ l. Choice (Passes l) s.config.selection o) (sym e)
          (select-Choice group now (r ∷ rs) jitters s.config.selection positive))

  -- With a quorum of one at least, a round ends in one of three ways, and never by a panic of the
  -- selection. No server answered, and only the statistics change. Or servers answered and the
  -- selection refused, which is stored as the diagnostics while the server to stay with is kept. Or
  -- the selection over the answers of this round has at least a quorum of agreers, each a result
  -- that a configured server gave in this round and that passed the gates; the outcome is the result
  -- that the selection selected or one of the agreers, it too such a result, its server is the one
  -- to stay with, and the diagnostics of the selection are reported and stored.
  pub sync-Ends : s.config.selection.min_quorum ≢ 0 → Ends (sync client at now s)
  unfolding sync
  sync-Ends positive = on_results-Ends answers.1 positive refl (
      collect-IsAnswer client s.config at s.config.servers s.config.servers 0 s.stats
        (self_members s.config.servers))
