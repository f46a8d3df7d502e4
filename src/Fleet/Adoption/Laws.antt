-- ===== src/Fleet/Adoption/Laws.antt =====
-- What the verdict of src/fleet.rs `adoption` says of the two chains.
use mathlib.Core.Bool.{decide, decide_iff}
use fgtw.Base.{
  ◌≤◌, ◌≡◌, refl, sym, ◌∙◌, ap, inl, inr, true, some, [], ◌∷◌, ◌++◌, arith, ◌==◌, length, take,
  drop, take-append, take-append-drop, length-append, Bool-cases, if◌then◌else◌, append-nil,
}
use fgtw.Primitives.{Primitives}
use fgtw.Fleet.Op.{FleetOp}
use fgtw.Fleet.Query.{MembershipBlob, genesis_hash}
use fgtw.Fleet.Adoption.Verdict.{
  Adoption, extended, unchanged, stale, lands, extends, same_ops, same_genesis, adoption,
}

-- `extends` finds a chain that is the prior one with more ops behind it.
extends-append : (prior rest : MembershipBlob) → extends (prior ++ rest) prior ≡ true
unfolding extends
extends-append prior rest =
    let same =
      (decide_iff (same_ops (take (length prior) (prior ++ rest)) prior)).1
        (take-append prior rest) in
    ground (arith, same, length-append prior rest)

extends-split :
    (ops prior : MembershipBlob) → extends ops prior ≡ true → ops ≡ prior ++ drop (length prior) ops
unfolding extends
extends-split ops prior h =
    let same : take (length prior) ops ≡ prior =
      (decide_iff (same_ops (take (length prior) ops) prior)).0 (ground arith) in
    sym (take-append-drop (length prior) ops) ∙ ap (λ t. t ++ drop (length prior) ops) same

extends-length : (ops prior : MembershipBlob) → extends ops prior ≡ true → length prior ≤ length ops
unfolding extends
extends-length ops prior h = ground arith

-- The verdict on the two chains with their parts exchanged.
abbrev pub exchanged : Adoption → Adoption
exchanged extended = stale
exchanged stale = extended
exchanged v = v

module _ (p : Primitives) where
  -- A chain lands only if it is the adopted one, op for op, with possibly more ops behind it: no
  -- op that was adopted is ever given up, and the genesis stays.
  pub adoption-lands :
      (ops old : MembershipBlob)
      → lands (adoption p ops (some old)) ≡ true
      → (ops ≡ old ++ drop (length old) ops) × (genesis_hash p ops ≡ genesis_hash p old)
  unfolding adoption
  adoption-lands ops old h = (
    extends-split ops old (ground arith),
    (decide_iff (same_genesis (genesis_hash p ops) (genesis_hash p old))).0 (ground arith),
  )

  length-eq-nil : (rest : MembershipBlob) → length rest ≡ 0 → rest ≡ []
  length-eq-nil [] h = refl
  length-eq-nil (x ∷ xs) h = absurd (omega arith)

  -- Where a chain has only grown, the verdict lands: unchanged if nothing came, else extended.
  pub adoption-append :
      (op : FleetOp) (old rest : MembershipBlob)
      → adoption p ((op ∷ old) ++ rest) (some (op ∷ old))
        ≡ (if length rest == 0 then unchanged else extended)
  unfolding adoption genesis_hash
  adoption-append op old rest =
      let same =
        (decide_iff
            (same_genesis (genesis_hash p ((op ∷ old) ++ rest)) (genesis_hash p (op ∷ old)))).1
          refl in
      ground (arith, same, extends-append (op ∷ old) rest, length-append (op ∷ old) rest)

  decide_comm :
      (a b : MembershipBlob)
      → decide (same_genesis (genesis_hash p a) (genesis_hash p b))
        ≡ decide (same_genesis (genesis_hash p b) (genesis_hash p a))
  decide_comm a b =
      let ab = decide_iff (same_genesis (genesis_hash p a) (genesis_hash p b)) in
      let ba = decide_iff (same_genesis (genesis_hash p b) (genesis_hash p a)) in
      elim (Bool-cases (decide (same_genesis (genesis_hash p a) (genesis_hash p b)))) [
        | inl same ↦ same ∙ sym (ba.1 (sym (ab.0 same)))
        | inr differ ↦
            elim (Bool-cases (decide (same_genesis (genesis_hash p b) (genesis_hash p a)))) [
              | inl same ↦ absurd (ground (arith, ab.1 (sym (ba.0 same))))
              | inr differ' ↦ differ ∙ sym differ'
            ]
      ]

  -- Two chains that extend one another are the same.
  extends_antisym :
      (a b : MembershipBlob) → extends a b ≡ true → extends b a ≡ true → length a ≡ length b
  extends_antisym a b h k = omega (arith, extends-length a b h, extends-length b a k)

  extends_same :
      (a b : MembershipBlob) → length a ≡ length b → extends a b ≡ true → extends b a ≡ true
  unfolding extends
  extends_same a b e h =
      let split : a ≡ b ++ drop (length b) a = extends-split a b h in
      let none_left : drop (length b) a ≡ [] =
        length-eq-nil (drop (length b) a)
          (omega (arith, ap length split, length-append b (drop (length b) a))) in
      let equal : b ≡ a = sym (split ∙ ap (◌++◌ b) none_left ∙ append-nil b) in
      rw equal
        (let whole : extends (a ++ []) a ≡ true = extends-append a [] in rw append-nil at whole)

  -- What one consumer calls an extension the other calls stale, and all else they agree on.
  pub adoption-exchanged :
      (a b : MembershipBlob) → adoption p b (some a) ≡ exchanged (adoption p a (some b))
  unfolding adoption
  adoption-exchanged a b =
      ground (arith, decide_comm a b, extends_antisym a b, extends_same a b, extends_same b a)
