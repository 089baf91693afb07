-- ===== src/Sync/Sticky.antt =====
-- src/ntp/sync.rs: what staying with a server may cost.
use ntp_time_json_api.Common.{
  ℕ, ◌+◌, ◌^◌, ◌<◌, ◌≤◌, ◌++◌, leb, subst, ◌≡◌, refl, ◌⊎◌, inl, inr, ap, ◌∙◌, true, false, Option,
  none, some, List, [], ◌∷◌, String, if_cases, All, arith,
}
use ntp_time_json_api.Common.Int.{
  pos, leb_ℤ, ◌-i64◌, ◌-ℤ◌, wrap_i64, wrap_i64_of_InI64, -ℤ_parts, pos_or_neg,
}
use ntp_time_json_api.Samples.{NtpResult, as_millis}
use ntp_time_json_api.Sync.{same_server, find_server, rtt_millis, with_found, sticky_select}

-- Of the agreers, `kept` is the first that is the server with that name.
pub record IsFirst (name : String) (kept : NtpResult) (agreers : List NtpResult) : Type 0 where
  pub before : List NtpResult
  pub after : List NtpResult
  pub split : agreers ≡ before ++ kept ∷ after
  pub others : All (λ r. same_server r.server name ≡ false) before
  pub own : same_server kept.server name ≡ true

-- When the choice switches to the best server, which it names, and when it stays.
pub data Sticks (agreers : List NtpResult) (best : NtpResult) (current : Option String)
    (threshold : ℕ) : NtpResult × Option String → Type 0 where
  begins : current ≡ none → Sticks agreers best current threshold (best, some best.server)
  leaves :
      (name : String)
      → current ≡ some name
      → All (λ r. same_server r.server name ≡ false) agreers
      → Sticks agreers best current threshold (best, some best.server)
  switches :
      (name : String) (kept : NtpResult)
      → current ≡ some name
      → IsFirst name kept agreers
      → same_server best.server name ≡ false
      → as_millis best.rtt + threshold ≤ as_millis kept.rtt
      → Sticks agreers best current threshold (best, some best.server)
  stays :
      (name : String) (kept : NtpResult)
      → current ≡ some name
      → IsFirst name kept agreers
      → (same_server best.server name ≡ true)
        ⊎ (as_millis kept.rtt < as_millis best.rtt + threshold)
      → Sticks agreers best current threshold (kept, none)

-- What is found is the first with that name, and nothing is found where there is none.
abbrev Found : String → List NtpResult → Option NtpResult → Type 0
Found name rs none = All (λ r. same_server r.server name ≡ false) rs
Found name rs (some r) = IsFirst name r rs

Found-cons :
    (name : String) (x : NtpResult) (rs : List NtpResult) (o : Option NtpResult)
    → same_server x.server name ≡ false
    → Found name rs o
    → Found name (x ∷ rs) o
Found-cons name x rs none other h = (other, h)
Found-cons name x rs (some r) other h = record {
  before = x ∷ h.before;
  after = h.after;
  split = ap (λ l. x ∷ l) h.split;
  others = (other, h.others);
  own = h.own;
}

find_server-Found : (name : String) (rs : List NtpResult) → Found name rs (find_server name rs)
find_server-Found name [] = tt
find_server-Found name (x ∷ xs) =
    if_cases (Found name (x ∷ xs)) (same_server x.server name)
      (λ own. record { before = []; after = xs; split = refl; others = tt; own = own })
      (λ other. Found-cons name x xs (find_server name xs) other (find_server-Found name xs))

-- Round trips that fit are compared as they are.
rtt_exact : (r : NtpResult) → as_millis r.rtt < 2 ^ 62 → rtt_millis r ≡ pos (as_millis r.rtt)
rtt_exact r h = wrap_i64_of_InI64 (pos (as_millis r.rtt)) (omega arith)

-- The difference of two such round trips, against the threshold.
compares :
    (kept best : NtpResult) (threshold : ℕ)
    → as_millis kept.rtt < 2 ^ 62
    → as_millis best.rtt < 2 ^ 62
    → leb_ℤ (pos threshold) (rtt_millis kept -i64 rtt_millis best)
      ≡ leb (as_millis best.rtt + threshold) (as_millis kept.rtt)
unfolding ◌-i64◌
compares kept best threshold k b =
    let d = pos (as_millis kept.rtt) -ℤ pos (as_millis best.rtt) in
    let parts = -ℤ_parts (pos (as_millis kept.rtt)) (pos (as_millis best.rtt)) in
    let exact : wrap_i64 d ≡ d = wrap_i64_of_InI64 d (omega (arith, parts, pos_or_neg d)) in
    let same = (λ i. rtt_exact kept k i -i64 rtt_exact best b i) ∙ exact in
    let plain : leb_ℤ (pos threshold) d
        ≡ leb (as_millis best.rtt + threshold) (as_millis kept.rtt) =
      ground (arith, parts) in
    ap (leb_ℤ (pos threshold)) same ∙ plain

All-split :
    (before : List NtpResult) (r : NtpResult) (after : List NtpResult)
    → All (λ x. as_millis x.rtt < 2 ^ 62) (before ++ r ∷ after)
    → as_millis r.rtt < 2 ^ 62
All-split [] r after all = all.0
All-split (x ∷ before) r after all = All-split before r after all.1

First-fits :
    (name : String) (kept : NtpResult) (agreers : List NtpResult)
    → All (λ r. as_millis r.rtt < 2 ^ 62) agreers
    → IsFirst name kept agreers
    → as_millis kept.rtt < 2 ^ 62
First-fits name kept agreers all f =
    All-split f.before kept f.after (subst (All (λ r. as_millis r.rtt < 2 ^ 62)) f.split all)

with_found-Sticks :
    (agreers : List NtpResult) (best : NtpResult) (name : String) (threshold : ℕ)
    (o : Option NtpResult)
    → as_millis best.rtt < 2 ^ 62
    → All (λ r. as_millis r.rtt < 2 ^ 62) agreers
    → Found name agreers o
    → Sticks agreers best (some name) threshold (with_found name o best (pos threshold))
with_found-Sticks agreers best name threshold none b all f = leaves name refl f
with_found-Sticks agreers best name threshold (some r) b all f =
    let fits = compares r best threshold (First-fits name r agreers all f) b in
    if_cases (Sticks agreers best (some name) threshold) (same_server best.server name)
      (λ same. stays name r refl f (inl same))
      (λ other.
        if_cases (Sticks agreers best (some name) threshold)
          (leb_ℤ (pos threshold) (rtt_millis r -i64 rtt_millis best))
          (λ far. switches name r refl f other (ground (arith, fits, far)))
          (λ near. stays name r refl f (inr (ground (arith, fits, near)))))

-- Where the round trips are below 2^62 ms: the choice is the best server, which it names as the new
-- one to stay with, only if there is no current server, no agreer is the current server, or the
-- best server is another and its round trip is shorter than that of the first agreer that is the
-- current server by the threshold at least. Otherwise it is that agreer, and then the best server
-- is the current one, or its round trip is shorter by less than the threshold.
pub sticky_select-Sticks :
    (agreers : List NtpResult) (best : NtpResult) (current : Option String) (threshold : ℕ)
    → as_millis best.rtt < 2 ^ 62
    → All (λ r. as_millis r.rtt < 2 ^ 62) agreers
    → Sticks agreers best current threshold (sticky_select agreers best current (pos threshold))
unfolding sticky_select
sticky_select-Sticks agreers best none threshold b all = begins refl
sticky_select-Sticks agreers best (some name) threshold b all =
    with_found-Sticks agreers best name threshold (find_server name agreers) b all
      (find_server-Found name agreers)
