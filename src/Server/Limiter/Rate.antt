-- ===== src/Server/Limiter/Rate.antt =====
-- src/ntp/server.rs: how many requests the limiter lets through.
use ntp_time_json_api.Common.{
  ℕ, zero, suc, ◌+◌, ◌-◌, ◌*◌, ◌^◌, ◌≤◌, ◌<◌, ◌≡◌, ◌≢◌, refl, sym, ap, ◌∙◌, Bool, true, false,
  Option, none, some, List, [], ◌∷◌, arith, leb, ◌==◌, if◌then◌else◌, if_intro, All, u32,
}
use ntp_time_json_api.Samples.{Instant}
use ntp_time_json_api.Server.Limiter.{Ip, Window, UdpRateLimiter, lookup, one_second}
use ntp_time_json_api.Server.Limiter.Entries.{Distinct}
use ntp_time_json_api.Server.Limiter.Allowing.{admit}
use ntp_time_json_api.Server.Limiter.Isolation.{
  times_of, answers_to, answers_alone, InOrder, answers_to-alone,
}

abbrev pub count_allowed : List Bool → ℕ
count_allowed [] = 0
count_allowed (b ∷ bs) = (if b then 1 else 0) + count_allowed bs

-- Within one second from `t`.
abbrev pub IsInSecond : Instant → Instant → Type 0
IsInSecond t now = (t ≤ now) × (now < t + one_second)

abbrev pub AllInSecond : Instant → List (Instant × Ip) → Type 0
AllInSecond t reqs = All (λ r. IsInSecond t r.0) reqs

-- What may still be let through in the second from `t`: the rest of a window that began before
-- it, and one more window.
abbrev allowance : ℕ → Instant → Option Window → ℕ
allowance limit t none = limit
allowance limit t (some w) = limit - w.count + (if leb t w.window_start then 0 else limit)

answers_alone-le :
    (limit : ℕ) (t : Instant) (times : List Instant) (cell : Option Window)
    → limit ≢ 0
    → limit < 2 ^ 32
    → All (IsInSecond t) times
    → count_allowed (answers_alone limit times cell) ≤ allowance limit t cell
unfolding answers_alone admit
answers_alone-le limit t [] cell l m o = omega arith
answers_alone-le limit t (now ∷ times) none l m o =
    ground (arith, o, answers_alone-le limit t times (admit limit now none).0 l m o.1)
answers_alone-le limit t (now ∷ times) (some w) l m o =
    ground (arith, o, answers_alone-le limit t times (admit limit now (some w)).0 l m o.1)

times_of-IsInSecond :
    (t : Instant) (ip : Ip) (reqs : List (Instant × Ip))
    → AllInSecond t reqs
    → All (IsInSecond t) (times_of ip reqs)
times_of-IsInSecond t ip [] h = tt
times_of-IsInSecond t ip ((now, other) ∷ reqs) h =
    if_intro (All (IsInSecond t)) (other == ip) (h.0, times_of-IsInSecond t ip reqs h.1)
      (times_of-IsInSecond t ip reqs h.1)

-- With a limit in u32 other than 0 (0 means no limit), a table that has each address once and a clock
-- that does not run back: of the requests that come within one second, an address gets at most twice
-- the limit through, the rest of one window and the whole of the next.
pub answers_to-le :
    (ip : Ip) (reqs : List (Instant × Ip)) (t : Instant) (s : UdpRateLimiter)
    → s.limit_per_second ≢ 0
    → s.limit_per_second < 2 ^ 32
    → Distinct s.map
    → InOrder t reqs
    → AllInSecond t reqs
    → count_allowed (answers_to ip reqs s) ≤ 2 * s.limit_per_second
answers_to-le ip reqs t s l m d o within = rw (answers_to-alone ip reqs t s l d o) (
    ground (
      arith,
      answers_alone-le s.limit_per_second t (times_of ip reqs) (lookup ip s.map) l m
          (times_of-IsInSecond t ip reqs within),
    ))

-- `true` for the first `n` elements.
abbrev pub first_ones {ℓ} : {A : Type ℓ} → ℕ → List A → List Bool
first_ones n [] = []
first_ones zero (x ∷ xs) = false ∷ first_ones zero xs
first_ones (suc n) (x ∷ xs) = true ∷ first_ones n xs

answers_in_window :
    (limit n : ℕ) (w : Window) (times : List Instant)
    → limit < 2 ^ 32
    → w.count + n ≡ limit
    → All (IsInSecond w.window_start) times
    → answers_alone limit times (some w) ≡ first_ones n times
unfolding answers_alone admit
answers_in_window limit n w [] m c o = refl
answers_in_window limit zero w (now ∷ times) m c o =
    ground (arith, answers_in_window limit zero w times m c o.1)
answers_in_window limit (suc n) w (now ∷ times) m c o = ground (
  arith,
  answers_in_window limit n (record w { count = u32 (w.count + 1) }) times m (omega arith) o.1,
)

-- An address that is not in the table gets its first requests through, up to the limit, and no
-- more within one second of the first.
answers_to-first_ones :
    (ip : Ip) (t : Instant) (reqs : List (Instant × Ip)) (s : UdpRateLimiter)
    → s.limit_per_second ≢ 0
    → s.limit_per_second < 2 ^ 32
    → Distinct s.map
    → lookup ip s.map ≡ none
    → InOrder t reqs
    → AllInSecond t reqs
    → answers_to ip ((t, ip) ∷ reqs) s ≡ first_ones s.limit_per_second (t ∷ times_of ip reqs)
unfolding answers_alone admit
answers_to-first_ones ip t reqs s l m d new o within =
    let n = s.limit_per_second - 1 in
    let limit : s.limit_per_second ≡ suc n = omega arith in
    let own : (ip == ip) ≡ true = ground arith in
    answers_to-alone ip ((t, ip) ∷ reqs) t s l d (omega arith, o)
    ∙ rw own (
        rw new (
          ap (◌∷◌ true) (
            answers_in_window s.limit_per_second n (record { count = 1; window_start = t })
              (times_of ip reqs) m (omega arith) (times_of-IsInSecond t ip reqs within))
          ∙ ap (λ k. first_ones k (t ∷ times_of ip reqs)) (sym limit)))
