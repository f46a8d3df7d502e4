-- ===== src/Attest/Fresh.antt =====
-- When src/attest.rs `attest_verdict` lets a device mint a new identity.
use fgtw.Fleet.Fold.Step.{fold_inner}
use fgtw.Fleet.Fold.Empty.{fold_inner-nonempty}
use fgtw.Base.{
  ℕ, ◌↔◌, ◌≡◌, ◌≢◌, refl, sym, ap, ◌∙◌, Bool, false, Option, none, List, [], ◌∷◌, arith, All,
}
use fgtw.Base.Bytes.{Bytes}
use fgtw.Base.Result.{Result, ok, err}
use fgtw.Primitives.{Primitives}
use fgtw.Fleet.Fold.Walk.{FoldError, empty}
use fgtw.Fleet.Query.{MembershipBlob, fold}
use fgtw.Attest.Verdict.{
  SeedAnswer, silent, fresh, Seen, candidates, advances, note_error, note_members, note_fold, look,
  nothing_seen, seed_verdict, error_verdict, decide_ours, attest_verdict,
}
use fgtw.Attest.Best.{note_error-ours}

note_error-slot : (e : FoldError) (seen : Seen) → (note_error e seen).wrong_slot ≡ seen.wrong_slot
unfolding note_error
note_error-slot e seen = ground arith

module _ (p : Primitives) (slot d : Bytes) where
  note_error-quiet :
      (e : FoldError) (seen : Seen)
      → (note_error e seen).unverifiable_with ≡ none
      → (e ≡ empty) × (seen.unverifiable_with ≡ none)
  unfolding note_error
  note_error-quiet e seen h = (ground arith, ground arith)

  -- Nothing was noted.
  abbrev Quiet : Seen → Type 0
  Quiet seen = (seen.ours ≡ none) × (seen.wrong_slot ≡ false) × (seen.unverifiable_with ≡ none)

  note_fold-Quiet :
      (c : MembershipBlob) (r : Result FoldError (List Bytes)) (seen : Seen)
      → Quiet (note_fold p slot d c r seen)
      → (r ≡ err empty) × Quiet seen
  unfolding note_fold note_members advances
  note_fold-Quiet c (ok members) seen (a, b, e) = absurd (ground arith)
  note_fold-Quiet c (err why) seen (a, b, e) =
      let (is_empty, before) = note_error-quiet why seen e in
      (
        ap err is_empty,
        (sym (note_error-ours why seen) ∙ a, sym (note_error-slot why seen) ∙ b, before),
      )

  look-Quiet :
      (cs : List MembershipBlob) (seen : Seen)
      → Quiet (look p slot d cs seen)
      → All (λ c. fold p c ≡ err empty) cs × Quiet seen
  unfolding look
  look-Quiet [] seen h = (tt, h)
  look-Quiet (c ∷ cs) seen h =
      let (later, next) = look-Quiet cs (note_fold p slot d c (fold p c) seen) h in
      let (here, quiet) = note_fold-Quiet c (fold p c) seen next in ((here, later), quiet)

  look-empty :
      (cs : List MembershipBlob) (seen : Seen)
      → All (λ c. fold p c ≡ err empty) cs
      → look p slot d cs seen ≡ seen
  unfolding look note_fold note_error
  look-empty [] seen h = refl
  look-empty (c ∷ cs) seen (here, later) = rw here (look-empty cs seen later)

  decide_ours-fresh :
      (best : Option (ℕ × Bool)) (seen : Seen) (seed : SeedAnswer)
      → decide_ours best seen seed ≡ fresh
      → (best ≡ none)
        × (seen.wrong_slot ≡ false)
        × (seen.unverifiable_with ≡ none)
        × (seed ≢ silent)
  unfolding decide_ours error_verdict seed_verdict
  decide_ours-fresh best seen seed h = (ground arith, ground arith, ground arith, λ e. ground arith)

  fold-empty : (c : MembershipBlob) → fold p c ≡ err empty → c ≡ []
  unfolding fold
  fold-empty [] h = refl
  fold-empty (op ∷ ops) h = absurd (fold_inner-nonempty p op ops (ground arith))

  empty-fold : (c : MembershipBlob) → c ≡ [] → fold p c ≡ err empty
  unfolding fold fold_inner
  empty-fold c h = rw h refl

  All-map :
      {P Q : MembershipBlob → Type 0}
      → ((c : MembershipBlob) → P c → Q c)
      → (cs : List MembershipBlob) → All P cs
      → All Q cs
  All-map f [] h = tt
  All-map f (c ∷ cs) h = (f c h.0, All-map f cs h.1)

  -- A device may mint a new identity exactly when the seed answered and no chain that was seen has an
  -- op. The answer may be that it holds no chain, or a chain without ops; silence is never absence, and
  -- no chain that failed to verify counts as none.
  pub attest_verdict-fresh :
      (held : Option MembershipBlob) (peers : List MembershipBlob) (seed : SeedAnswer)
      → (attest_verdict p slot d held peers seed ≡ fresh)
        ↔ ((seed ≢ silent) × All (λ c. c ≡ []) (candidates held peers seed))
  unfolding attest_verdict decide_ours error_verdict seed_verdict
  attest_verdict-fresh held peers seed = (
    λ h.
        let cs = candidates held peers seed in
        let (a, b, e, asked) = decide_ours-fresh _ (look p slot d cs nothing_seen) seed h in
        (asked, All-map fold-empty cs (look-Quiet cs nothing_seen (a, b, e)).0),
    λ (asked, none_seen).
        rw
          (look-empty (candidates held peers seed) nothing_seen
            (All-map empty-fold (candidates held peers seed) none_seen))
          (ground arith),
  )
