-- ===== src/Server/Limiter/Allowing.antt =====
-- src/ntp/server.rs: one request, seen by each address.
use ntp_time_json_api.Common.{
  ℕ, ◌+◌, ◌-◌, ◌≡◌, ◌≢◌, refl, inl, inr, Bool, true, false, Option, none, some, ◌∷◌, arith, ltb,
  leb, ◌==◌, if◌then◌else◌, if_cases, subst, Option-cases, u32,
}
use ntp_time_json_api.Samples.{Instant}
use ntp_time_json_api.Server.Limiter.{
  Ip, Window, UdpRateLimiter, lookup, assign, one_second, cleanup, on_entry, allow,
}
use ntp_time_json_api.Server.Limiter.Entries.{
  Distinct, lookup-assign, assign-Distinct, Survives, Survives-refl, cleanup-Survives,
  cleanup-Distinct,
}

-- The window of one address, with nobody else: what a request at `now` does to it.
unfoldable pub admit : ℕ → Instant → Option Window → Option Window × Bool
admit limit now none = (some (record { count = 1; window_start = now }), true)
admit limit now (some w) =
    if leb one_second (now - w.window_start)
    then (some (record { count = 1; window_start = now }), true)
    else if ltb w.count limit
    then (some (record w { count = u32 (w.count + 1) }), true)
    else (some w, false)

-- What one request does to the table: the asking address gets what its own window says, and the
-- others keep their entries but for the stale ones.
pub record Allows (now : Instant) (ip : Ip) (s : UdpRateLimiter) (r : UdpRateLimiter × Bool)
    : Type 0 where
  pub answer : r.1 ≡ (admit s.limit_per_second now (lookup ip s.map)).1
  pub own : lookup ip r.0.map ≡ (admit s.limit_per_second now (lookup ip s.map)).0
  pub others : (other : Ip) → other ≢ ip → Survives now (lookup other s.map) (lookup other r.0.map)
  pub distinct : Distinct r.0.map
  pub same_limit : r.0.limit_per_second ≡ s.limit_per_second

on_entry-none-Allows :
    (now : Instant) (ip : Ip) (s : UdpRateLimiter)
    → Distinct s.map
    → lookup ip s.map ≡ none
    → Allows now ip s (on_entry now ip none s)
unfolding admit on_entry
on_entry-none-Allows now ip s d e =
    let grown = (ip, record { count = 1; window_start = now }) ∷ s.map in
    record {
      answer = rw e refl;
      own = rw e (ground arith);
      others = λ other differs.
          let untouched : lookup other grown ≡ lookup other s.map = ground arith in
          subst (λ o. Survives now o (lookup other (cleanup now grown))) untouched
            (cleanup-Survives now other grown (e, d));
      distinct = cleanup-Distinct now grown (e, d);
      same_limit = refl;
    }

module _ (now : Instant) (ip : Ip) (w : Window) (s : UdpRateLimiter) (d : Distinct s.map)
    (e : lookup ip s.map ≡ some w) where
  assigned-Allows :
      (v : Window)
      → admit s.limit_per_second now (some w) ≡ (some v, true)
      → Allows now ip s (record s { map = assign ip v s.map }, true)
  assigned-Allows v h = record {
    answer = rw e (ground (arith, h));
    own = rw e (ground (arith, h, lookup-assign ip ip v w s.map e));
    others = λ other differs.
        let same : lookup other s.map ≡ lookup other (assign ip v s.map) =
          ground (arith, lookup-assign ip other v w s.map e) in
        subst (λ o. Survives now (lookup other s.map) o) same
          (Survives-refl now (lookup other s.map));
    distinct = assign-Distinct ip v s.map d;
    same_limit = refl;
  }

  refused-Allows :
      admit s.limit_per_second now (some w) ≡ (some w, false) → Allows now ip s (s, false)
  refused-Allows h = record {
    answer = rw e (ground (arith, h));
    own = rw e (ground (arith, h));
    others = λ other _. Survives-refl now (lookup other s.map);
    distinct = d;
    same_limit = refl;
  }

  on_entry-some-Allows : Allows now ip s (on_entry now ip (some w) s)
  unfolding admit on_entry
  on_entry-some-Allows =
      if_cases (Allows now ip s) (leb one_second (now - w.window_start))
        (λ over. assigned-Allows (record { count = 1; window_start = now }) (rw over refl))
        (λ within.
          if_cases (Allows now ip s) (ltb w.count s.limit_per_second)
            (λ room.
              assigned-Allows (record w { count = u32 (w.count + 1) }) (rw within (rw room refl)))
            (λ full. refused-Allows (rw within (rw full refl))))

pub allow-Allows :
    (now : Instant) (ip : Ip) (s : UdpRateLimiter)
    → s.limit_per_second ≢ 0
    → Distinct s.map
    → Allows now ip s (allow now ip s)
unfolding allow
allow-Allows now ip s l d =
    if_cases (Allows now ip s) (s.limit_per_second == 0) (λ off. absurd (ground arith))
      (λ _. elim (Option-cases (lookup ip s.map)) [
        | inl e ↦ rw e (on_entry-none-Allows now ip s d e)
        | inr (w, e) ↦ rw e (on_entry-some-Allows now ip w s d e)
      ])
