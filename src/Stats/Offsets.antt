-- ===== src/Stats/Offsets.antt =====
-- src/ntp/stats.rs: the ring of offsets holds the last eight.
use mathlib.Core.List.{append-nil, append_assoc}
use ntp_time_json_api.Common.{
  suc, sym, ap, ◌∙◌, inl, inr, Bool-cases, if◌then◌else◌, leb, ℕ, ◌-◌, ◌≤◌, ◌≡◌, refl, List, [],
  ◌∷◌, ◌++◌, arith, length, drop, length-append,
}
use ntp_time_json_api.Common.Int.{ℤ}
use ntp_time_json_api.Stats.{ServerStats, record_offset}

unfoldable pub record_all : List ℤ → ServerStats → ServerStats
record_all [] s = s
record_all (z ∷ zs) s = record_all zs (record_offset z s)

-- The last `k` elements.
abbrev pub last_of : ℕ → List ℤ → List ℤ
last_of k zs = drop (length zs - k) zs

last_of-cons : (k : ℕ) (z : ℤ) (zs : List ℤ) → k ≤ length zs → last_of k (z ∷ zs) ≡ last_of k zs
last_of-cons k z zs h =
    let e : suc (length zs) - k ≡ suc (length zs - k) = omega arith in
    ap (λ (n : ℕ). drop n (z ∷ zs)) e

last_of_short : (k : ℕ) (zs : List ℤ) → length zs ≤ k → last_of k zs ≡ zs
last_of_short k zs h = let e : length zs - k ≡ 0 = omega arith in ap (λ (n : ℕ). drop n zs) e

-- One push and what follows it see the same last eight.
push :
    (xs : List ℤ) (z : ℤ) (zs : List ℤ)
    → length xs ≤ 8
    → let kept = if leb 8 (length xs) then drop 1 xs else xs in
      (length (kept ++ z ∷ []) ≤ 8)
      × (last_of 8 ((kept ++ z ∷ []) ++ zs) ≡ last_of 8 (xs ++ z ∷ zs))
push [] z zs h = (omega arith, refl)
push (x ∷ xs) z zs h = elim (Bool-cases (leb 8 (suc (length xs)))) [
  | inl full ↦ rw full (
    omega (arith, length-append xs (z ∷ [])),
    rw append_assoc
        (sym (last_of-cons 8 x (xs ++ z ∷ zs) (ground (arith, length-append xs (z ∷ zs))))),
  )
  | inr room ↦ rw room (
    ground (arith, length-append xs (z ∷ [])),
    ap (λ (l : List ℤ). last_of 8 (x ∷ l)) (append_assoc xs (z ∷ []) zs),
  )
]

-- The ring holds the last eight of all the offsets that were recorded, in their order.
pub record_all-recent_offsets :
    (zs : List ℤ) (s : ServerStats)
    → length s.recent_offsets ≤ 8
    → (record_all zs s).recent_offsets ≡ last_of 8 (s.recent_offsets ++ zs)
unfolding record_all record_offset
record_all-recent_offsets [] s h =
    rw (append-nil s.recent_offsets) (sym (last_of_short 8 s.recent_offsets h))
record_all-recent_offsets (z ∷ zs) s h =
    let (short, same) = push s.recent_offsets z zs h in
    record_all-recent_offsets zs (record_offset z s) short ∙ same
