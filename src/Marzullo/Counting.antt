-- ===== src/Marzullo/Counting.antt =====
-- src/ntp/selection.rs: the events of the sweep, counted and sorted.
use ntp_time_json_api.Common.{
  ℕ, ◌+◌, ◌≤◌, ◌≡◌, refl, inl, inr, Bool, true, false, ◌&&◌, List, [], ◌∷◌, arith, if◌then◌else◌,
  length, Bool-cases,
}
use ntp_time_json_api.Common.Float.{Float, ◌≤?◌, ◌<?◌}
use ntp_time_json_api.Marzullo.{
  ScoredResult, opens, closes, Event, events, event_before, insert_event, sort_events, truechimers,
}

module _ {F : Type 0} ⦃fl : Float F⦄ where
  abbrev pub count_if : (Event F → Bool) → List (Event F) → ℕ
  count_if p [] = 0
  count_if p (e ∷ es) = (if p e then 1 else 0) + count_if p es

  abbrev pub is_open : Event F → Bool
  is_open e = elim e.kind [ opens ↦ true | closes ↦ false ]

  abbrev pub is_close : Event F → Bool
  is_close e = elim e.kind [ opens ↦ false | closes ↦ true ]

  abbrev pub open_by : F → Event F → Bool
  open_by x e = is_open e && (e.at ≤? x)

  abbrev pub closed_before : F → Event F → Bool
  closed_before x e = is_close e && (e.at <? x)

  -- Sorting moves events, and keeps each of them.
  count_if-insert_event :
      (p : Event F → Bool) (e : Event F) (es : List (Event F))
      → count_if p (insert_event e es) ≡ count_if p (e ∷ es)
  unfolding insert_event
  count_if-insert_event p e [] = refl
  count_if-insert_event p e (x ∷ xs) = elim (Bool-cases (event_before e x)) [
    | inl first ↦ rw first
    | inr after ↦ rw after (omega (arith, count_if-insert_event p e xs))
  ]

  pub count_if-sort_events :
      (p : Event F → Bool) (es : List (Event F)) → count_if p (sort_events es) ≡ count_if p es
  unfolding sort_events
  count_if-sort_events p [] = refl
  count_if-sort_events p (e ∷ es) =
      omega (arith, count_if-insert_event p e (sort_events es), count_if-sort_events p es)

  abbrev pub all_at_least : F → List (Event F) → Bool
  all_at_least x [] = true
  all_at_least x (e ∷ es) = (x ≤? e.at) && all_at_least x es

  abbrev pub all_at_most : F → List (Event F) → Bool
  all_at_most x [] = true
  all_at_most x (e ∷ es) = (e.at ≤? x) && all_at_most x es

  abbrev pub IsSorted : List (Event F) → Type 0
  IsSorted [] = Unit {0}
  IsSorted (e ∷ es) = (all_at_least e.at es ≡ true) × IsSorted es

  event_before_le : (a b : Event F) → event_before a b ≡ true → (a.at ≤? b.at) ≡ true
  event_before_le a b h = ground (arith, fl.at_most_total a.at b.at)

  event_before_ge : (a b : Event F) → event_before a b ≡ false → (b.at ≤? a.at) ≡ true
  event_before_ge a b h = ground (arith, fl.at_most_total a.at b.at)

  all_at_least_trans :
      (x y : F) (es : List (Event F))
      → (x ≤? y) ≡ true
      → all_at_least y es ≡ true
      → all_at_least x es ≡ true
  all_at_least_trans x y [] h k = refl
  all_at_least_trans x y (e ∷ es) h k =
      ground (arith, fl.at_most_trans x y e.at, all_at_least_trans x y es h)

  all_at_least-insert_event :
      (x : F) (e : Event F) (es : List (Event F))
      → (x ≤? e.at) ≡ true
      → all_at_least x es ≡ true
      → all_at_least x (insert_event e es) ≡ true
  unfolding insert_event
  all_at_least-insert_event x e [] h k = ground arith
  all_at_least-insert_event x e (y ∷ ys) h k = ground (arith, all_at_least-insert_event x e ys h)

  insert_event-IsSorted :
      (e : Event F) (es : List (Event F)) → IsSorted es → IsSorted (insert_event e es)
  unfolding insert_event
  insert_event-IsSorted e [] s = (refl, tt)
  insert_event-IsSorted e (x ∷ xs) s = elim (Bool-cases (event_before e x)) [
    | inl first ↦
        let le = event_before_le e x first in
        rw first ((rw le (all_at_least_trans e.at x.at xs le s.0), s))
    | inr after ↦ rw after (
      all_at_least-insert_event x.at e xs (event_before_ge e x after) s.0,
      insert_event-IsSorted e xs s.1,
    )
  ]

  pub sort_events-IsSorted : (es : List (Event F)) → IsSorted (sort_events es)
  unfolding sort_events
  sort_events-IsSorted [] = tt
  sort_events-IsSorted (e ∷ es) = insert_event-IsSorted e (sort_events es) (sort_events-IsSorted es)

  -- What has opened by `x` in a list whose events all stand at `x` at the latest.
  pub count_opens :
      (x : F) (es : List (Event F))
      → all_at_most x es ≡ true
      → count_if is_open es ≡ count_if (open_by x) es
  count_opens x [] h = refl
  count_opens x (e ∷ es) h = ground (arith, count_opens x es)

  pub count_closes-le :
      (x : F) (es : List (Event F)) → count_if (closed_before x) es ≤ count_if is_close es
  count_closes-le x [] = omega arith
  count_closes-le x (e ∷ es) = ground (arith, count_closes-le x es)

  pub no_closes :
      (x : F) (es : List (Event F)) → all_at_least x es ≡ true → count_if (closed_before x) es ≡ 0
  no_closes x [] h = refl
  no_closes x (e ∷ es) h = ground (arith, no_closes x es)

  -- Of the candidates whose interval has opened by `lo`, those that do not close before `hi` span
  -- the region.
  pub truechimers_enough :
      (lo hi : F) (i : ℕ) (cs : List (ScoredResult F))
      → count_if (open_by lo) (events cs)
        ≤ length (truechimers lo hi i cs) + count_if (closed_before hi) (events cs)
  unfolding events truechimers
  truechimers_enough lo hi i [] = omega arith
  truechimers_enough lo hi i (c ∷ cs) = ground (arith, truechimers_enough lo hi (i + 1) cs)
