-- ===== src/Marzullo/Sweeping.antt =====
-- src/ntp/selection.rs: what the locals of the sweep say of the events seen so far.
use ntp_time_json_api.Common.{◌+◌, ◌≤◌, ◌≡◌, refl, ◌⊎◌, Bool, true, List, [], ◌∷◌, arith, All}
use ntp_time_json_api.Common.Int.{ℤ, pos_part, neg_part, ◌≤ℤ◌, +ℤ_parts}
use ntp_time_json_api.Common.Float.{Float, ≤?_refl}
use ntp_time_json_api.Marzullo.{
  kind_value, Event, SweepState, sweep_start, sweep_event, sweep, close_peak, last_at,
}
use ntp_time_json_api.Marzullo.Counting.{
  count_if, is_open, is_close, open_by, closed_before, all_at_least, all_at_most, IsSorted,
  count_opens, count_closes-le, no_closes,
}

module _ {F : Type 0} ⦃fl : Float F⦄ (min_q : ℤ) (all : List (Event F)) where
  -- Where the events of `all` that open by `lo` outnumber those that close before `hi` by `min_q`.
  abbrev pub Covers : F → F → Type 0
  Covers lo hi =
      pos_part min_q + count_if (closed_before hi) all ≤ neg_part min_q + count_if (open_by lo) all

  -- `done` holds the events seen, the last one first, and `rest` the others.
  pub record Inv (done rest : List (Event F)) (s : SweepState F) : Type 0 where
    pub balance :
        pos_part s.count + count_if is_close done ≡ neg_part s.count + count_if is_open done
    pub peak_in : s.in_peak ≡ true → (s.in_sig ≡ true) × (s.significant_clusters ≡ 1)
    pub peak_count : s.in_peak ≡ true → s.max_in_cluster ≡ s.count
    pub peak_enough : s.in_peak ≡ true → min_q ≤ℤ s.max_in_cluster
    pub peak_last : s.in_peak ≡ true → all_at_most s.peak_lo done ≡ true
    pub found : s.peak_found ≡ true → s.significant_clusters ≡ 1 → Covers s.peak_lo s.peak_hi
    pub has_peak : s.significant_clusters ≡ 1 → (s.in_peak ≡ true) ⊎ (s.peak_found ≡ true)

  start-Inv : Inv [] all sweep_start
  unfolding sweep_start
  start-Inv = ground arith

  -- A peak that ends at the next event covers, and so does one that ends with the list.
  peak-Covers :
      (done rest : List (Event F)) (s : SweepState F) (hi : F)
      → (split_open : count_if (open_by s.peak_lo) all
          ≡ count_if (open_by s.peak_lo) done + count_if (open_by s.peak_lo) rest)
      → (split_close : count_if (closed_before hi) all
          ≡ count_if (closed_before hi) done + count_if (closed_before hi) rest)
      → all_at_least hi rest ≡ true
      → Inv done rest s
      → s.in_peak ≡ true
      → Covers s.peak_lo hi
  peak-Covers done rest s hi so sc later v h = ground (
    arith,
    count_opens s.peak_lo done (v.peak_last h),
    count_closes-le hi done,
    no_closes hi rest later,
    v.balance,
    v.peak_count h,
    v.peak_enough h,
  )

  step-Inv :
      (done rest : List (Event F)) (e : Event F) (s : SweepState F)
      → (covers : s.in_peak ≡ true → Covers s.peak_lo e.at)
      → (earlier : all_at_most e.at (e ∷ done) ≡ true) → Inv done (e ∷ rest) s
      → Inv (e ∷ done) rest (sweep_event min_q e s)
  unfolding sweep_event
  step-Inv done rest e s c b v = ground (arith, +ℤ_parts s.count (kind_value e.kind))

  abbrev Bounded : List (Event F) → List (Event F) → Type 0
  Bounded done rest = All (λ y. all_at_most y.at done ≡ true) rest

  Bounded-cons :
      (done rest : List (Event F)) (e : Event F)
      → Bounded done rest
      → all_at_least e.at rest ≡ true
      → Bounded (e ∷ done) rest
  Bounded-cons done [] e b l = tt
  Bounded-cons done (y ∷ ys) e b l =
      (ground (arith, b.0), Bounded-cons done ys e b.1 (ground arith))

  -- The events of the second list, pushed one by one onto the first.
  abbrev onto : List (Event F) → List (Event F) → List (Event F)
  onto done [] = done
  onto done (e ∷ es) = onto (e ∷ done) es

  abbrev Splits : List (Event F) → List (Event F) → Type 0
  Splits done rest = (p : Event F → Bool) → count_if p all ≡ count_if p done + count_if p rest

  sweep-Inv :
      (done rest : List (Event F)) (s : SweepState F)
      → Splits done rest
      → Bounded done rest
      → IsSorted rest
      → Inv done rest s
      → Inv (onto done rest) [] (sweep min_q rest s) × Splits (onto done rest) []
  unfolding sweep
  sweep-Inv done [] s sp b o v = (v, sp)
  sweep-Inv done (e ∷ es) s sp b o v =
      let covers =
        peak-Covers done (e ∷ es) s e.at (sp _) (sp _) (ground (arith, ≤?_refl e.at, o.0)) v in
      let earlier : all_at_most e.at (e ∷ done) ≡ true = ground (arith, ≤?_refl e.at, b.0) in
      sweep-Inv (e ∷ done) es (sweep_event min_q e s) (λ p. omega (arith, sp p))
        (Bounded-cons done es e b.1 o.0) o.1 (step-Inv done es e s covers earlier v)

  close_peak-Covers :
      (es done : List (Event F)) (s : SweepState F)
      → Splits done []
      → Inv done [] s
      → (close_peak es s).significant_clusters ≡ 1
      → ((close_peak es s).peak_found ≡ true)
        × Covers (close_peak es s).peak_lo (close_peak es s).peak_hi
  unfolding close_peak
  close_peak-Covers es done s sp v h =
      ground (arith, peak-Covers done [] s (last_at es s.peak_lo) (sp _) (sp _) refl v, v)

  no_bound : (es : List (Event F)) → Bounded [] es
  no_bound [] = tt
  no_bound (e ∷ es) = (refl, no_bound es)

  -- If the sweep over a sorted list finds one significant cluster, it finds a region in it that
  -- `min_q` intervals cover.
  pub sweep-Covers :
      IsSorted all
      → let s = close_peak all (sweep min_q all sweep_start) in
        s.significant_clusters ≡ 1 → (s.peak_found ≡ true) × Covers s.peak_lo s.peak_hi
  sweep-Covers sorted h =
      let (v, sp) =
        sweep-Inv [] all sweep_start (λ p. omega arith) (no_bound all) sorted start-Inv in
      close_peak-Covers all (onto [] all) (sweep min_q all sweep_start) sp v h
