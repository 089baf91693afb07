-- ===== src/Server/Limiter/Entries.antt =====
-- src/ntp/server.rs: the table of the limiter under assignment and clean-up.
use ntp_time_json_api.Common.{
  ◌+◌, ◌*◌, ◌≤◌, ◌≡◌, refl, ◌⊎◌, inl, inr, Bool, Option, none, some, [], ◌∷◌, arith, ltb, ◌==◌,
  if◌then◌else◌, if_cases, if_intro, subst, Bool-cases, length, keep,
}
use ntp_time_json_api.Samples.{Instant}
use ntp_time_json_api.Server.Limiter.{
  Ip, Window, Table, lookup, assign, one_second, is_fresh, cleanup,
}

-- Each address once.
abbrev pub Distinct : Table → Type 0
Distinct [] = Unit {0}
Distinct ((k, w) ∷ m) = (lookup k m ≡ none) × Distinct m

pub lookup-assign :
    (ip other : Ip) (w v : Window) (m : Table)
    → lookup ip m ≡ some v
    → lookup other (assign ip w m) ≡ (if ip == other then some w else lookup other m)
lookup-assign ip other w v [] h = absurd (ground arith)
lookup-assign ip other w v ((k, u) ∷ m) h = ground (arith, lookup-assign ip other w v m)

pub lookup-assign-none :
    (ip other : Ip) (w : Window) (m : Table)
    → lookup other m ≡ none
    → lookup other (assign ip w m) ≡ none
lookup-assign-none ip other w [] h = refl
lookup-assign-none ip other w ((k, u) ∷ m) h = ground (arith, lookup-assign-none ip other w m)

pub assign-Distinct : (ip : Ip) (w : Window) (m : Table) → Distinct m → Distinct (assign ip w m)
assign-Distinct ip w [] d = tt
assign-Distinct ip w ((k, u) ∷ m) d =
    ground (arith, d, assign-Distinct ip w m, lookup-assign-none ip k w m)

pub lookup-keep-none :
    (p : Ip × Window → Bool) (ip : Ip) (m : Table)
    → lookup ip m ≡ none
    → lookup ip (keep p m) ≡ none
lookup-keep-none p ip [] h = refl
lookup-keep-none p ip ((k, w) ∷ m) h = ground (arith, lookup-keep-none p ip m)

pub keep-Distinct : (p : Ip × Window → Bool) (m : Table) → Distinct m → Distinct (keep p m)
keep-Distinct p [] d = tt
keep-Distinct p ((k, w) ∷ m) d = ground (arith, d, keep-Distinct p m, lookup-keep-none p k m)

-- What becomes of the entry of an address that does not ask: it stays, or it goes once stale.
abbrev pub Survives : Instant → Option Window → Option Window → Type 0
Survives now none after = after ≡ none
Survives now (some w) after =
    (after ≡ some w) ⊎ ((after ≡ none) × (w.window_start + 2 * one_second ≤ now))

pub Survives-refl : (now : Instant) (o : Option Window) → Survives now o o
Survives-refl now none = refl
Survives-refl now (some w) = inl refl

pub Survives-none :
    (now : Instant) (o after : Option Window) → o ≡ none → after ≡ none → Survives now o after
Survives-none now none after h k = k
Survives-none now (some w) after h k = absurd (ground arith)

pub lookup-keep :
    (now : Instant) (ip : Ip) (m : Table)
    → Distinct m
    → Survives now (lookup ip m) (lookup ip (keep (is_fresh now) m))
lookup-keep now ip [] d = refl
lookup-keep now ip ((k, w) ∷ m) d = elim (Bool-cases (k == ip)) [
  | inl own ↦
      let none_left : lookup ip m ≡ none = subst (λ n. lookup n m ≡ none) (ground arith) d.0 in
      rw own (
        if_cases (λ t. Survives now (some w) (lookup ip t)) (is_fresh now (k, w))
          (λ _. inl (rw own refl))
          (λ stale. inr (lookup-keep-none (is_fresh now) ip m none_left, ground arith)))
  | inr other ↦
      let later = lookup-keep now ip m d.1 in
      rw other (
        if_cases (λ t. Survives now (lookup ip m) (lookup ip t)) (is_fresh now (k, w))
          (λ _. rw other later) (λ _. later))
]

pub cleanup-Survives :
    (now : Instant) (ip : Ip) (m : Table)
    → Distinct m
    → Survives now (lookup ip m) (lookup ip (cleanup now m))
cleanup-Survives now ip m d =
    if_intro (λ t. Survives now (lookup ip m) (lookup ip t)) (ltb 10_000 (length m))
      (lookup-keep now ip m d) (Survives-refl now (lookup ip m))

pub cleanup-Distinct : (now : Instant) (m : Table) → Distinct m → Distinct (cleanup now m)
cleanup-Distinct now m d =
    if_intro Distinct (ltb 10_000 (length m)) (keep-Distinct (is_fresh now) m d) d
