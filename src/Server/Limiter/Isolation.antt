-- ===== src/Server/Limiter/Isolation.antt =====
-- src/ntp/server.rs: the shared limiter against a window of one address alone.
use ntp_time_json_api.Common.{
  ℕ, ◌+◌, ◌≤◌, ◌≡◌, ◌≢◌, refl, sym, ap, ◌∙◌, inl, inr, Bool, Option, none, some, List, [], ◌∷◌,
  arith, ◌==◌, if◌then◌else◌, subst, Bool-cases,
}
use ntp_time_json_api.Samples.{Instant}
use ntp_time_json_api.Server.Limiter.{Ip, Window, UdpRateLimiter, lookup, one_second, allow}
use ntp_time_json_api.Server.Limiter.Entries.{Distinct, Survives}
use ntp_time_json_api.Server.Limiter.Allowing.{admit, allow-Allows}

-- The entry of an address is its own window, or it is gone and the window is over.
abbrev Agrees : Instant → Option Window → Option Window → Type 0
Agrees now none none = Unit {0}
Agrees now none (some w) = w.window_start + one_second ≤ now
Agrees now (some v) cell = some v ≡ cell

Agrees-refl : (now : Instant) (o : Option Window) → Agrees now o o
Agrees-refl now none = tt
Agrees-refl now (some w) = refl

Agrees-later :
    (now later : Instant) (o cell : Option Window)
    → now ≤ later
    → Agrees now o cell
    → Agrees later o cell
Agrees-later now later none none le h = tt
Agrees-later now later none (some w) le h = omega arith
Agrees-later now later (some v) cell le h = h

Agrees-Survives :
    (now : Instant) (o after cell : Option Window)
    → Agrees now o cell
    → Survives now o after
    → Agrees now after cell
Agrees-Survives now none after cell h k = subst (λ o. Agrees now o cell) (sym k) h
Agrees-Survives now (some v) after cell h (inl stays) = subst (λ o. Agrees now o cell) (sym stays) h
Agrees-Survives now (some v) after cell h (inr (gone, stale)) =
    let over : Agrees now none cell = subst (λ c. Agrees now none c) h (omega arith) in
    subst (λ o. Agrees now o cell) (sym gone) over

-- An entry that is gone counts for what a window that is over counts.
admit-Agrees :
    (limit : ℕ) (now : Instant) (o cell : Option Window)
    → Agrees now o cell
    → admit limit now o ≡ admit limit now cell
unfolding admit
admit-Agrees limit now none none h = refl
admit-Agrees limit now none (some w) h = ground arith
admit-Agrees limit now (some v) cell h = ap (admit limit now) h

abbrev pub times_of : Ip → List (Instant × Ip) → List Instant
times_of ip [] = []
times_of ip ((now, other) ∷ reqs) = if other == ip then now ∷ times_of ip reqs else times_of ip reqs

-- The answers that the requests of one address get from the shared limiter.
unfoldable pub answers_to : Ip → List (Instant × Ip) → UdpRateLimiter → List Bool
answers_to ip [] s = []
answers_to ip ((now, other) ∷ reqs) s =
    let (s', ok) = allow now other s in
    let rest = answers_to ip reqs s' in if other == ip then ok ∷ rest else rest

-- The answers where the address is alone.
unfoldable pub answers_alone : ℕ → List Instant → Option Window → List Bool
answers_alone limit [] cell = []
answers_alone limit (now ∷ times) cell =
    let (cell', ok) = admit limit now cell in ok ∷ answers_alone limit times cell'

abbrev pub InOrder : Instant → List (Instant × Ip) → Type 0
InOrder from [] = Unit {0}
InOrder from ((now, ip) ∷ reqs) = (from ≤ now) × InOrder now reqs

answers_to_agree :
    (ip : Ip) (reqs : List (Instant × Ip)) (from : Instant) (s : UdpRateLimiter)
    (cell : Option Window) (limit : ℕ)
    → s.limit_per_second ≡ limit
    → limit ≢ 0
    → Distinct s.map
    → InOrder from reqs
    → Agrees from (lookup ip s.map) cell
    → answers_to ip reqs s ≡ answers_alone limit (times_of ip reqs) cell
unfolding answers_to answers_alone
answers_to_agree ip [] from s cell limit e l d o a = refl
answers_to_agree ip ((now, other) ∷ reqs) from s cell limit e l d o a =
    let s' = (allow now other s).0 in
    let v = allow-Allows now other s (rw e l) d in
    let a' = Agrees-later from now (lookup ip s.map) cell o.0 a in
    elim (Bool-cases (other == ip)) [
      | inl own ↦
          let asks : other ≡ ip = ground arith in
          let same : admit s.limit_per_second now (lookup other s.map) ≡ admit limit now cell =
            ap (λ n. admit n now (lookup other s.map)) e
            ∙ ap (λ n. admit limit now (lookup n s.map)) asks
            ∙ admit-Agrees limit now (lookup ip s.map) cell a' in
          let next : lookup ip s'.map ≡ (admit limit now cell).0 =
            ap (λ n. lookup n s'.map) (sym asks) ∙ v.own ∙ ap (λ r. r.0) same in
          let rest =
            answers_to_agree ip reqs now s' (admit limit now cell).0 limit (v.same_limit ∙ e) l
              v.distinct o.1
              (subst (λ c. Agrees now (lookup ip s'.map) c) next
                (Agrees-refl now (lookup ip s'.map))) in
          rw own (λ i. (v.answer ∙ ap (λ r. r.1) same) i ∷ rest i)
      | inr stranger ↦ rw stranger (
          answers_to_agree ip reqs now s' cell limit (v.same_limit ∙ e) l v.distinct o.1 (
            Agrees-Survives now (lookup ip s.map) (lookup ip s'.map) cell a'
              (v.others ip (ground arith))))
    ]

-- However the requests of other addresses fall between its own, and whatever the clean-up of the
-- table drops, an address gets the answers that it would get alone, as long as the clock does not
-- run back.
pub answers_to-alone :
    (ip : Ip) (reqs : List (Instant × Ip)) (from : Instant) (s : UdpRateLimiter)
    → s.limit_per_second ≢ 0
    → Distinct s.map
    → InOrder from reqs
    → answers_to ip reqs s ≡ answers_alone s.limit_per_second (times_of ip reqs) (lookup ip s.map)
answers_to-alone ip reqs from s l d o =
    answers_to_agree ip reqs from s (lookup ip s.map) s.limit_per_second refl l d o
      (Agrees-refl from (lookup ip s.map))
