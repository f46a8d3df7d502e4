-- ===== src/Attest/Best.antt =====
-- Which of the chains that were seen decides the verdict of src/attest.rs `attest_verdict`.
use fgtw.Base.{
  ℕ, suc, ◌≤◌, ◌≡◌, refl, sym, ap, ◌∙◌, ◌⊎◌, inl, inr, Bool, true, Option, none, some, List, [],
  ◌∷◌, arith, length, All, Bool-cases, Option-cases, if◌then◌else◌,
}
use fgtw.Base.Bytes.{Bytes, eqb_iff, eqb_refl}
use fgtw.Base.Result.{Result, ok, err}
use fgtw.Primitives.{Primitives}
use fgtw.Fleet.Members.{contains}
use fgtw.Fleet.Fold.Walk.{FoldError}
use fgtw.Fleet.Fold.Trace.{Any}
use fgtw.Fleet.Query.{MembershipBlob, fold, handle_proof}
use fgtw.Attest.Verdict.{
  SeedAnswer, member, join_ours, Seen, candidates, at_slot, advances, note_error, note_members,
  note_fold, look, nothing_seen, decide_ours, attest_verdict,
}

-- The chain folds to these members, and its genesis claims the slot.
abbrev pub IsOurs : Primitives → Bytes → MembershipBlob → List Bytes → Type 0
IsOurs p slot c members = (fold p c ≡ ok members) × (handle_proof c ≡ some slot)

-- How far the best chain at the slot has come.
abbrev rank : Option (ℕ × Bool) → ℕ
rank none = 0
rank (some best) = suc best.0

at_slot-eq : (h : Option Bytes) (slot : Bytes) → at_slot h slot ≡ true → h ≡ some slot
unfolding at_slot
at_slot-eq none slot e = cc
at_slot-eq (some h) slot e = ap some ((eqb_iff h slot).0 e)

pub note_error-ours : (e : FoldError) (seen : Seen) → (note_error e seen).ours ≡ seen.ours
unfolding note_error
note_error-ours e seen = ground arith

module _ (p : Primitives) (slot d : Bytes) where
  note_fold-rank :
      (c : MembershipBlob) (r : Result FoldError (List Bytes)) (seen : Seen)
      → rank seen.ours ≤ rank (note_fold p slot d c r seen).ours
  unfolding note_fold note_members advances
  note_fold-rank c (ok members) seen = ground arith
  note_fold-rank c (err e) seen = rw (note_error-ours e seen) (omega arith)

  look-rank :
      (cs : List MembershipBlob) (seen : Seen) → rank seen.ours ≤ rank (look p slot d cs seen).ours
  unfolding look
  look-rank [] seen = omega arith
  look-rank (c ∷ cs) seen =
      omega (
        arith,
        note_fold-rank c (fold p c) seen,
        look-rank cs (note_fold p slot d c (fold p c) seen),
      )

  note_fold-ours :
      (c : MembershipBlob) (members : List Bytes) (seen : Seen)
      → handle_proof c ≡ some slot
      → suc (length c) ≤ rank (note_fold p slot d c (ok members) seen).ours
  unfolding note_fold note_members advances at_slot
  note_fold-ours c members seen h = rw h (ground (arith, eqb_refl slot))

  -- A verified chain at the slot is not missed.
  look-found :
      (cs : List MembershipBlob) (seen : Seen)
      → Any (λ c. (members : List Bytes) × IsOurs p slot c members) cs
      → 1 ≤ rank (look p slot d cs seen).ours
  unfolding look
  look-found [] seen found = elim found [ ]
  look-found (c ∷ cs) seen (inl (members, own)) =
      let here : suc (length c) ≤ rank (note_fold p slot d c (ok members) seen).ours =
        note_fold-ours c members seen own.1 in
      let e = ap (λ r. rank (look p slot d cs (note_fold p slot d c r seen)).ours) own.0 in
      omega (arith, e, here, look-rank cs (note_fold p slot d c (ok members) seen))
  look-found (c ∷ cs) seen (inr later) = look-found cs (note_fold p slot d c (fold p c) seen) later

  -- The length of a verified chain at the slot, and 0 of any other.
  abbrev pub our_length : MembershipBlob → ℕ
  our_length c = elim (fold p c) [
    | ok members ↦ if at_slot (handle_proof c) slot then length c else 0
    | err e ↦ 0
  ]

  note_fold-length :
      (c : MembershipBlob) (r : Result FoldError (List Bytes)) (seen : Seen) (n : ℕ)
      → fold p c ≡ r
      → rank (note_fold p slot d c r seen).ours ≤ suc n
      → our_length c ≤ n
  note_fold-length c (err e) seen n f h = rw (our_length, f) (omega arith)
  note_fold-length c (ok members) seen n f h = elim (Bool-cases (at_slot (handle_proof c) slot)) [
    | inr other ↦ rw (our_length, f, other) (omega arith)
    | inl here ↦
        rw (our_length, f, here)
          (omega (arith, h, note_fold-ours c members seen (at_slot-eq (handle_proof c) slot here)))
  ]

  look-longest :
      (cs : List MembershipBlob) (seen : Seen) (n : ℕ)
      → rank (look p slot d cs seen).ours ≤ suc n
      → All (λ c. our_length c ≤ n) cs
  unfolding look
  look-longest [] seen n h = tt
  look-longest (c ∷ cs) seen n h =
      let next = note_fold p slot d c (fold p c) seen in
      (
        note_fold-length c (fold p c) seen n refl (omega (arith, h, look-rank cs next)),
        look-longest cs next n h,
      )

  -- The chain that the best entry stands for.
  abbrev pub Backs : ℕ × Bool → MembershipBlob → Type 0
  Backs best c =
      (members : List Bytes) × IsOurs p slot c members
      × (best.0 ≡ length c)
      × (best.1 ≡ contains members d)

  note_fold-backed :
      (c : MembershipBlob) (r : Result FoldError (List Bytes)) (seen : Seen) (best : ℕ × Bool)
      → fold p c ≡ r
      → (note_fold p slot d c r seen).ours ≡ some best
      → (seen.ours ≡ some best) ⊎ Backs best c
  unfolding note_fold note_members
  note_fold-backed c (err e) seen best f h = inl (sym (note_error-ours e seen) ∙ h)
  note_fold-backed c (ok members) seen best f h =
      elim (Bool-cases (at_slot (handle_proof c) slot)) [
        | inr other ↦ inl (rw other at h)
        | inl here ↦ elim (Bool-cases (advances seen.ours (length c))) [
          | inr shorter ↦ inl (rw (here, shorter) at h)
          | inl longer ↦
              let same : (length c, contains members d) ≡ best = ground (arith, here, longer, h) in
              inr (
                members,
                (f, at_slot-eq (handle_proof c) slot here),
                ap (λ t. t.0) (sym same),
                ap (λ t. t.1) (sym same),
              )
        ]
      ]

  look-backed :
      (cs : List MembershipBlob) (seen : Seen) (best : ℕ × Bool)
      → (look p slot d cs seen).ours ≡ some best
      → (seen.ours ≡ some best) ⊎ Any (Backs best) cs
  unfolding look
  look-backed [] seen best h = inl h
  look-backed (c ∷ cs) seen best h =
      elim (look-backed cs (note_fold p slot d c (fold p c) seen) best h) [
        | inr later ↦ inr (inr later)
        | inl now ↦ elim (note_fold-backed c (fold p c) seen best refl now) [
          | inl before ↦ inl before
          | inr here ↦ inr (inl here)
        ]
      ]

  Any-map :
      {P Q : MembershipBlob → Type 0}
      → ((c : MembershipBlob) → P c → Q c)
      → (cs : List MembershipBlob) → Any P cs
      → Any Q cs
  Any-map f [] h = h
  Any-map f (c ∷ cs) (inl h) = inl (f c h)
  Any-map f (c ∷ cs) (inr h) = inr (Any-map f cs h)

  -- A verified chain at the slot that is longest of those seen, and decides.
  abbrev pub Decides :
      Option MembershipBlob → List MembershipBlob → SeedAnswer → MembershipBlob → Type 0
  Decides held peers seed c =
      (members : List Bytes) × IsOurs p slot c members
      × All (λ other. our_length other ≤ length c) (candidates held peers seed)
      × (attest_verdict p slot d held peers seed
          ≡ (if contains members d then member else join_ours))

  -- Where some chain that was seen verifies and claims the slot, a longest such chain decides: the
  -- verdict is to resume if it lists the device and to join if not, and never to mint, whatever the
  -- seed said and whatever other chains failed to verify.
  pub attest_verdict-ours :
      (held : Option MembershipBlob) (peers : List MembershipBlob) (seed : SeedAnswer)
      → Any (λ c. (members : List Bytes) × IsOurs p slot c members) (candidates held peers seed)
      → Any (Decides held peers seed) (candidates held peers seed)
  unfolding attest_verdict decide_ours
  attest_verdict-ours held peers seed found =
      let cs = candidates held peers seed in
      let some_best = look-found cs nothing_seen found in
      elim (Option-cases (look p slot d cs nothing_seen).ours) [
        | inl nothing ↦ absurd (omega (arith, ap rank nothing, some_best))
        | inr (best, is_best) ↦
            let longest = look-longest cs nothing_seen best.0 (omega (arith, ap rank is_best)) in
            elim (look-backed cs nothing_seen best is_best) [
              | inl never ↦ cc
              | inr backed ↦
                  Any-map
                    (λ c b.
                      let (members, own, n, listed) = b in
                      (members, own, rw (← n) longest, rw (is_best, listed) refl))
                    cs backed
            ]
      ]
