-- ===== src/Selection/Accounted.antt =====
-- src/ntp/selection.rs: how the diagnostics of a selection account for the results.
use ntp_time_json_api.Common.{
  ◌+◌, suc, ap, ◌∙◌, ◌≡◌, ◌≢◌, ◌≤◌, refl, sym, subst, Option, none, some, List, [], ◌∷◌, String,
  ltb, if_intro, if_cases, length, map, keep, arith, Result, ok, err,
}
use ntp_time_json_api.Common.Float.{Float}
use ntp_time_json_api.Samples.{Instant, NtpResult}
use ntp_time_json_api.Marzullo.{ScoredResult, MarzulloState, MarzulloResult, marzullo_filter}
use ntp_time_json_api.Selection.{
  SelectionConfig, RejectedSource, RejectReason, JitterMap, gate, sort_out, gather,
}
use ntp_time_json_api.Selection.Consensus.{pick, sort_by_offset, weighted_median, agrees}
use ntp_time_json_api.Selection.Select.{
  SelectionOutput, SelectionDiagnostics, IntersectionState, with_region, base_diagnostics, accept,
  agree, after_filter, choose, select,
}
use ntp_time_json_api.Selection.Gates.{gate-result, gather-length}

module _ {F : Type 0} ⦃fl : Float F⦄ where
  -- The root distances of the candidates, as the diagnostics list them.
  abbrev lambdas_of : List (ScoredResult F) → List (String × F)
  lambdas_of candidates = map (λ c. (c.result.server, c.lambda_ms)) candidates

  -- What the diagnostics say of the candidates and of the rejected sources.
  abbrev Lists : List (ScoredResult F) → List RejectedSource → SelectionDiagnostics F → Type 0
  Lists candidates rejected d =
      (d.candidate_count ≡ length candidates)
      × (d.rejected_count ≡ length rejected)
      × (d.rejected_sources ≡ rejected)
      × (d.candidate_lambdas ≡ lambdas_of candidates)

  -- An output whose diagnostics say so.
  data Answers (candidates : List (ScoredResult F)) (rejected : List RejectedSource)
      : Option (SelectionOutput F) → Type 0 where
    answers :
        (out : SelectionOutput F)
        → Lists candidates rejected out.diagnostics
        → Answers candidates rejected (some out)

  module _ (candidates : List (ScoredResult F)) (rejected : List RejectedSource)
      (group : String → String) (config : SelectionConfig F)
      (positive : config.min_quorum ≢ 0) where
    accept-Answers :
        (base : SelectionDiagnostics F) (wm_offset : F) (cs : List (ScoredResult F))
        → config.min_quorum ≤ length cs
        → Lists candidates rejected base
        → Answers candidates rejected (accept group config base wm_offset cs)
    unfolding accept
    accept-Answers base wm_offset [] enough l = absurd (omega arith)
    accept-Answers base wm_offset (c ∷ cs) enough l = answers _ l

    agree-Answers :
        (base : SelectionDiagnostics F) (left : List (ScoredResult F))
        → Lists candidates rejected base
        → Answers candidates rejected (agree group config base left)
    unfolding agree
    agree-Answers base left l =
        let active = sort_by_offset left in
        let wm = weighted_median active in
        let agreers = keep (agrees (fl.of_int config.max_offset_skew_ms) wm) active in
        if_cases (Answers candidates rejected) (ltb (length agreers) config.min_quorum)
          (λ few. answers _ l) (λ enough. accept-Answers base wm agreers (ground (arith, enough)) l)

    after_filter-Answers :
        (base : SelectionDiagnostics F) (cs : List (ScoredResult F)) (mr : MarzulloResult F)
        (state : MarzulloState)
        → Lists candidates rejected base
        → Answers candidates rejected (after_filter group config base cs mr state)
    unfolding after_filter
    after_filter-Answers base cs mr MarzulloState.ok l =
        agree-Answers (record base { intersection = with_region IntersectionState.ok mr })
          (pick mr.truechimer_indices 0 cs) l
    after_filter-Answers base cs mr MarzulloState.no_intersection l = answers _ l
    after_filter-Answers base cs mr MarzulloState.insufficient_quorum l = answers _ l
    after_filter-Answers base cs mr MarzulloState.ambiguous_cluster l = answers _ l

  choose-Answers :
      (group : String → String) (config : SelectionConfig F) (candidates : List (ScoredResult F))
      (rejected : List RejectedSource)
      → config.min_quorum ≢ 0
      → Answers candidates rejected (choose group config candidates rejected)
  unfolding choose
  choose-Answers group config [] rejected positive = answers _ (refl, refl, refl, refl)
  choose-Answers group config (c ∷ cs) rejected positive =
      let base = base_diagnostics config (c ∷ cs) rejected in
      let mr = marzullo_filter (c ∷ cs) config.min_quorum in
      let own : Lists (c ∷ cs) rejected base = (refl, refl, refl, refl) in
      if_intro (Answers (c ∷ cs) rejected) config.interval_selection_enabled
        (after_filter-Answers (c ∷ cs) rejected group config positive base (c ∷ cs) mr mr.state own)
        (agree-Answers (c ∷ cs) rejected group config positive base (c ∷ cs) own)

module _ {F : Type 0} ⦃fl : Float F⦄ (config : SelectionConfig F) (now : Instant)
    (jitters : JitterMap) where
  -- The results in their order, each either a candidate with the root distance that the gates
  -- computed for it, or a rejected source with the reason of the gates.
  pub data Sorts : List NtpResult → List (String × F) → List RejectedSource → Type 0 where
    none_left : Sorts [] [] []
    passes :
        (r : NtpResult) (c : ScoredResult F) {rs : List NtpResult} {lambdas : List (String × F)}
        {rejected : List RejectedSource}
        → gate config now jitters r ≡ ok c
        → Sorts rs lambdas rejected
        → Sorts (r ∷ rs) ((r.server, c.lambda_ms) ∷ lambdas) rejected
    fails :
        (r : NtpResult) (e : RejectReason) {rs : List NtpResult} {lambdas : List (String × F)}
        {rejected : List RejectedSource}
        → gate config now jitters r ≡ err e
        → Sorts rs lambdas rejected
        → Sorts (r ∷ rs) lambdas (record { server = r.server; reason = e } ∷ rejected)

  sort_out-Sorts :
      (r : NtpResult) (g : Result (ScoredResult F) RejectReason) (rs : List NtpResult)
      (rest : List (ScoredResult F) × List RejectedSource)
      → gate config now jitters r ≡ g
      → Sorts rs (lambdas_of rest.0) rest.1
      → Sorts (r ∷ rs) (lambdas_of (sort_out r.server g rest).0) (sort_out r.server g rest).1
  sort_out-Sorts r (ok c) rs rest h k =
      subst (λ (x : NtpResult). Sorts (r ∷ rs) ((x.server, c.lambda_ms) ∷ lambdas_of rest.0) rest.1)
        (sym (gate-result config now jitters r c h)) (passes r c h k)
  sort_out-Sorts r (err e) rs rest h k = fails r e h k

  gather-Sorts :
      (results : List NtpResult)
      → Sorts results
          (lambdas_of (gather config now jitters results).0)
          (gather config now jitters results).1
  unfolding gather
  gather-Sorts [] = none_left
  gather-Sorts (r ∷ rs) =
      sort_out-Sorts r (gate config now jitters r) rs (gather config now jitters rs) refl
        (gather-Sorts rs)

-- An answer whose diagnostics account for the results.
pub data Accounts {F : Type 0} ⦃fl : Float F⦄ (config : SelectionConfig F) (now : Instant)
    (jitters : JitterMap) (results : List NtpResult) : Option (SelectionOutput F) → Type 0 where
  accounts :
      (out : SelectionOutput F)
      → Sorts config now jitters results out.diagnostics.candidate_lambdas
          out.diagnostics.rejected_sources
      → out.diagnostics.candidate_count ≡ length out.diagnostics.candidate_lambdas
      → out.diagnostics.rejected_count ≡ length out.diagnostics.rejected_sources
      → out.diagnostics.candidate_count + out.diagnostics.rejected_count ≡ length results
      → Accounts config now jitters results (some out)

module _ {F : Type 0} ⦃fl : Float F⦄ where
  length-lambdas_of : (cs : List (ScoredResult F)) → length (lambdas_of cs) ≡ length cs
  length-lambdas_of [] = refl
  length-lambdas_of (c ∷ cs) = ap suc (length-lambdas_of cs)

  choose-Accounts :
      (config : SelectionConfig F) (now : Instant) (jitters : JitterMap) (results : List NtpResult)
      (o : Option (SelectionOutput F))
      → Answers (gather config now jitters results).0 (gather config now jitters results).1 o
      → Accounts config now jitters results o
  choose-Accounts config now jitters results none a = elim a [ ]
  choose-Accounts config now jitters results (some out)
        (answers _ (count, refused, sources, lambdas)) =
      let (candidates, rejected) = gather config now jitters results in
      let sorted =
        subst (λ x. Sorts config now jitters results x out.diagnostics.rejected_sources)
          (sym lambdas)
          (subst (Sorts config now jitters results (lambdas_of candidates)) (sym sources)
            (gather-Sorts config now jitters results)) in
      let listed : length out.diagnostics.candidate_lambdas ≡ length candidates =
        ap length lambdas ∙ length-lambdas_of candidates in
      accounts out sorted (count ∙ sym listed) (refused ∙ ap length (sym sources))
        (rw (count, refused) (gather-length config now jitters results))

-- With a quorum of one at least, the selection always answers, whatever it selects or refuses, and
-- its diagnostics account for the results in their order: each that passes the gates is listed as a
-- candidate with the root distance that the gates computed, each other as a rejected source with
-- the reason that they gave, and the counts of both are the lengths of the lists and add up to the
-- number of results.
pub select-Accounts :
    {F : Type 0} ⦃fl : Float F⦄ (group : String → String) (now : Instant) (results : List NtpResult)
    (jitters : JitterMap) (config : SelectionConfig F)
    → config.min_quorum ≢ 0
    → Accounts config now jitters results (select group now results jitters config)
unfolding select
select-Accounts group now results jitters config positive =
    choose-Accounts config now jitters results (select group now results jitters config) (
      choose-Answers group config (gather config now jitters results).0
        (gather config now jitters results).1 positive)
