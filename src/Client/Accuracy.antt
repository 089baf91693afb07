-- ===== src/Client/Accuracy.antt =====
-- src/ntp/client.rs: how far the measured offset can be from the true one.
use ntp_time_json_api.Common.{ℕ, ◌+◌, ◌*◌, ◌^◌, ◌≤◌, ◌<◌, ◌≡◌, refl, ap, ◌∙◌, ◌⊎◌, inl, inr, arith}
use ntp_time_json_api.Common.Int.{
  ℤ, pos, negsuc, pos_part, neg_part, abs_ℤ, ◌+ℤ◌, ◌-ℤ◌, ◌+i64◌, ◌-i64◌, div_ℤ, +ℤ_parts, -ℤ_parts,
  pos_or_neg, eq_of_parts, wrap_i64_of_InI64,
}
use ntp_time_json_api.Client.{offset_of, delay_of}

-- A bound on the magnitude of an integer.
abbrev pub Within : ℕ → ℤ → Type 0
Within n z = (pos_part z < n) × (neg_part z < n)

-- Between modest numbers there is no wrap-around.
sub_exact : (a b : ℤ) → Within (2 ^ 61) a → Within (2 ^ 61) b → a -i64 b ≡ a -ℤ b
unfolding ◌-i64◌
sub_exact a b h k = wrap_i64_of_InI64 (a -ℤ b) (omega (arith, -ℤ_parts a b, pos_or_neg (a -ℤ b)))

add_exact : (a b : ℤ) → Within (2 ^ 61) a → Within (2 ^ 61) b → a +i64 b ≡ a +ℤ b
unfolding ◌+i64◌
add_exact a b h k = wrap_i64_of_InI64 (a +ℤ b) (omega (arith, +ℤ_parts a b, pos_or_neg (a +ℤ b)))

sub-Within : (a b : ℤ) → Within (2 ^ 60) a → Within (2 ^ 60) b → Within (2 ^ 61) (a -ℤ b)
sub-Within a b h k = omega (arith, -ℤ_parts a b, pos_or_neg (a -ℤ b))

-- Half of an integer, rounded towards zero, against the integer.
half :
    (z : ℤ)
    → ((neg_part z ≡ 0)
        × (neg_part (div_ℤ z 2) ≡ 0)
        × (2 * pos_part (div_ℤ z 2) ≤ pos_part z)
        × (pos_part z ≤ 2 * pos_part (div_ℤ z 2) + 1))
      ⊎ ((pos_part z ≡ 0)
          × (pos_part (div_ℤ z 2) ≡ 0)
          × (2 * neg_part (div_ℤ z 2) ≤ neg_part z)
          × (neg_part z ≤ 2 * neg_part (div_ℤ z 2) + 1))
unfolding div_ℤ
half (pos n) = inl (ground arith)
half (negsuc n) = inr (ground arith)

module _ (t1 t2 t3 t4 : ℤ) (w1 : Within (2 ^ 60) t1) (w2 : Within (2 ^ 60) t2)
    (w3 : Within (2 ^ 60) t3) (w4 : Within (2 ^ 60) t4) where
  delay_exact : delay_of t1 t2 t3 t4 ≡ (t4 -ℤ t1) -ℤ (t3 -ℤ t2)
  unfolding delay_of
  delay_exact =
      rw (sub_exact t4 t1 (omega arith) (omega arith)) rw
        (sub_exact t3 t2 (omega arith) (omega arith))
        (sub_exact (t4 -ℤ t1) (t3 -ℤ t2) (sub-Within t4 t1 w4 w1) (sub-Within t3 t2 w3 w2))

  offset_exact : offset_of t1 t2 t3 t4 ≡ div_ℤ ((t2 -ℤ t1) +ℤ (t3 -ℤ t4)) 2
  unfolding offset_of
  offset_exact =
      rw (sub_exact t2 t1 (omega arith) (omega arith)) rw
        (sub_exact t3 t4 (omega arith) (omega arith)) rw
        (add_exact (t2 -ℤ t1) (t3 -ℤ t4) (sub-Within t2 t1 w2 w1) (sub-Within t3 t4 w3 w4)) refl

  -- The two legs, written with the parts of the integers.
  underway :
      (theta : ℤ) (out back : ℕ)
      → t2 ≡ t1 +ℤ theta +ℤ pos out
      → t3 +ℤ pos back ≡ t4 +ℤ theta
      → (pos_part t2 + neg_part t1 + neg_part theta
          ≡ neg_part t2 + pos_part t1 + pos_part theta + out)
        × (pos_part t3 + back + neg_part t4 + neg_part theta
            ≡ neg_part t3 + pos_part t4 + pos_part theta)
  underway theta out back e f = omega (
    arith,
    +ℤ_parts t1 theta,
    +ℤ_parts (t1 +ℤ theta) (pos out),
    +ℤ_parts t3 (pos back),
    +ℤ_parts t4 theta,
    ap pos_part e,
    ap neg_part e,
    ap pos_part f,
    ap neg_part f,
  )

  -- If the server's clock is `theta` ahead, and the request took `out` and the reply `back`
  -- milliseconds, then the delay is the time under way in both directions, and the offset is
  -- `theta` up to half of the delay, and half a millisecond for the rounding.
  pub offset_of_accuracy :
      (theta : ℤ) (out back : ℕ)
      → t2 ≡ t1 +ℤ theta +ℤ pos out
      → t3 +ℤ pos back ≡ t4 +ℤ theta
      → (delay_of t1 t2 t3 t4 ≡ pos (out + back))
        × (2 * abs_ℤ (offset_of t1 t2 t3 t4 -ℤ theta) ≤ out + back + 1)
  offset_of_accuracy theta out back e f =
      let z = (t2 -ℤ t1) +ℤ (t3 -ℤ t4) in
      (
        delay_exact
            ∙ eq_of_parts ((t4 -ℤ t1) -ℤ (t3 -ℤ t2)) (pos (out + back)) (
                omega (
                  arith,
                  underway theta out back e f,
                  -ℤ_parts t4 t1,
                  -ℤ_parts t3 t2,
                  -ℤ_parts (t4 -ℤ t1) (t3 -ℤ t2),
                )),
        rw offset_exact (
            omega (
              arith,
              underway theta out back e f,
              half z,
              pos_or_neg z,
              -ℤ_parts t2 t1,
              -ℤ_parts t3 t4,
              +ℤ_parts (t2 -ℤ t1) (t3 -ℤ t4),
              -ℤ_parts (div_ℤ z 2) theta,
              pos_or_neg (div_ℤ z 2 -ℤ theta),
            )),
      )
