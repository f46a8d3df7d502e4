-- ===== src/Tests/Attest.antt =====
-- The verdict of an attesting device on the chains of the phone and the laptop.
use fgtw.Base.{◌≡◌, ◌≢◌, ◌↔◌, refl, inl, none, some, [], ◌∷◌, All, replicate}
use fgtw.Base.Bytes.{Bytes}
use fgtw.Fleet.Fold.Trace.{Any}
use fgtw.Fleet.Query.{fold, handle_proof}
use fgtw.Attest.Verdict.{not_found, silent, fresh, candidates, attest_verdict}
use fgtw.Attest.Best.{IsOurs, Decides, attest_verdict-ours}
use fgtw.Attest.Fresh.{attest_verdict-fresh}
use fgtw.Tests.Toy.{toy, phone, laptop}
use fgtw.Tests.Fold.{pair_chain, pair_folds}

abbrev slot : Bytes
slot = replicate 32 7

attest_verdict-fresh_example :
    (attest_verdict toy slot laptop (some []) (pair_chain ∷ []) not_found ≡ fresh)
    ↔ ((not_found ≢ silent) × All (λ c. c ≡ []) (candidates (some []) (pair_chain ∷ []) not_found))
attest_verdict-fresh_example =
    attest_verdict-fresh toy slot laptop (some []) (pair_chain ∷ []) not_found

pair-IsOurs : IsOurs toy slot pair_chain (phone ∷ laptop ∷ [])
unfolding fold handle_proof
pair-IsOurs = (rw pair_folds refl, refl)

attest_verdict-ours_example :
    Any
      (Decides toy slot laptop none (pair_chain ∷ []) silent)
      (candidates none (pair_chain ∷ []) silent)
attest_verdict-ours_example =
    attest_verdict-ours toy slot laptop none (pair_chain ∷ []) silent
      (inl (phone ∷ laptop ∷ [], pair-IsOurs))
