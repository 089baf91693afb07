-- ===== src/Selection/Gates.antt =====
-- src/ntp/selection.rs: what the gates let through, and what becomes of the rest.
use ntp_time_json_api.Common.{
  suc, ◌+◌, ◌≡◌, refl, List, [], ◌∷◌, String, length, All, arith, Result, ok, err, sym, subst,
}
use mathlib.Core.List.{Memᴰ}
use ntp_time_json_api.Common.Float.{Float}
use ntp_time_json_api.Samples.{Instant, NtpResult}
use ntp_time_json_api.Marzullo.{ScoredResult}
use ntp_time_json_api.Selection.{
  SelectionConfig, RejectedSource, RejectReason, JitterMap, gate, sort_out, gather,
}
use ntp_time_json_api.Selection.Kept.{All-map}

module _ {F : Type 0} ⦃fl : Float F⦄ (config : SelectionConfig F) (now : Instant)
    (jitters : JitterMap) where
  pub gate-result :
      (r : NtpResult) (c : ScoredResult F) → gate config now jitters r ≡ ok c → c.result ≡ r
  unfolding gate
  gate-result r c h = ground arith

  -- A result that passed the gates, scored.
  abbrev pub IsGated : ScoredResult F → Type 0
  IsGated c = gate config now jitters c.result ≡ ok c

  sort_out-All :
      (Q : NtpResult → Type 0) (r : NtpResult) (g : Result (ScoredResult F) RejectReason)
      (rest : List (ScoredResult F) × List RejectedSource)
      → gate config now jitters r ≡ g
      → Q r
      → All (λ c. IsGated c × Q c.result) rest.0
      → All (λ c. IsGated c × Q c.result) (sort_out r.server g rest).0
  sort_out-All Q r (err e) rest h q k = k
  sort_out-All Q r (ok c) rest h q k =
      let same = sym (gate-result r c h) in
      ((subst (λ x. gate config now jitters x ≡ ok c) same h, subst Q same q), k)

  pub gather-All :
      (Q : NtpResult → Type 0) (results : List NtpResult)
      → All Q results
      → All (λ c. IsGated c × Q c.result) (gather config now jitters results).0
  unfolding gather
  gather-All Q [] h = tt
  gather-All Q (r ∷ rs) h =
      sort_out-All Q r (gate config now jitters r) (gather config now jitters rs) refl h.0
        (gather-All Q rs h.1)

  sort_out-length :
      (server : String) (g : Result (ScoredResult F) RejectReason)
      (rest : List (ScoredResult F) × List RejectedSource)
      → length (sort_out server g rest).0 + length (sort_out server g rest).1
        ≡ suc (length rest.0 + length rest.1)
  sort_out-length server (ok c) rest = omega arith
  sort_out-length server (err e) rest = omega arith

  -- Every result becomes a candidate or a rejected source, and only one of them.
  pub gather-length :
      (results : List NtpResult)
      → length (gather config now jitters results).0 + length (gather config now jitters results).1
        ≡ length results
  unfolding gather
  gather-length [] = refl
  gather-length (r ∷ rs) = omega (
    arith,
    gather-length rs,
    sort_out-length r.server (gate config now jitters r) (gather config now jitters rs),
  )

pub self_members {ℓ} : {A : Type ℓ} (xs : List A) → All (λ x. Memᴰ x xs) xs
self_members [] = tt
self_members (r ∷ rs) = (Memᴰ.head refl, All-map (λ x h. Memᴰ.tail h) rs (self_members rs))
