-- ===== src/Fleet/Build/Append.antt =====
-- What the proofs about the builders of src/fleet.rs share: what a signer must do, and one more op
-- behind a chain that folds.
use fgtw.Base.{
  ℕ, suc, ◌+◌, ◌≡◌, refl, sym, ap, ◌∙◌, true, false, List, [], ◌∷◌, ◌++◌, arith, length,
}
use fgtw.Base.Bytes.{Bytes}
use fgtw.Base.Result.{ok, >>=-eq-ok}
use fgtw.Primitives.{Primitives, Egg}
use fgtw.Base.Bits.{Includes-trans}
use fgtw.Pq.Scheme.{covers→Includes, Includes→covers, Mask, covers, egg_mask}
use fgtw.Pq.Bundle.{KeyBundle}
use fgtw.Fleet.Op.{FleetOp, OpKind, checkpoint}
use fgtw.Fleet.Signing.{
  signing_bytes, consent_part, checkpoint_part, bundle_part, plate_part, verify_sigs,
}
use fgtw.Fleet.Members.{contains}
use fgtw.Fleet.Query.{head}
use fgtw.Fleet.Fold.Walk.{FoldState, Walk, check_shape, record_plate}
use fgtw.Fleet.Fold.Apply.{verify_with, owner_ok, check_authority, apply_kind}
use fgtw.Fleet.Fold.Step.{finish, fold_step, fold_ops, fold_inner, start}
use fgtw.Fleet.Fold.Inversion.{fold_step-eq-ok}
use fgtw.Fleet.Fold.Trace.{fold_ops-cons, append-fold_ops}
use fgtw.Fleet.Build.Signer.{FleetSigner, Draft, unsigned_op, sign_op_plated}

checkpoint_part-sigs :
    (k : OpKind) (op : FleetOp) (sigs : List Egg) (cosig : Bytes)
    → checkpoint_part k (record op { sigs = sigs; identity_sig = cosig }) ≡ checkpoint_part k op
unfolding checkpoint_part
checkpoint_part-sigs checkpoint op sigs cosig = refl
checkpoint_part-sigs _ op sigs cosig = refl

-- The signatures are no part of what is signed.
pub signing_bytes-sigs :
    (p : Primitives) (op : FleetOp) (sigs : List Egg) (cosig : Bytes)
    → signing_bytes p (record op { sigs = sigs; identity_sig = cosig }) ≡ signing_bytes p op
unfolding signing_bytes consent_part bundle_part plate_part
signing_bytes-sigs p op sigs cosig = rw (checkpoint_part-sigs op.kind op sigs cosig)

-- A signer whose eggs under the mask `m` verify against the bundle `b` and cover `m`.
pub record CanSign (p : Primitives) (signer : FleetSigner) (b : KeyBundle) (m : Mask) : Type 0 where
  pub signs :
      (op : FleetOp)
      → op.signer_pubkey ≡ signer.public
      → op.sigs ≡ signer.eggs (signing_bytes p op) m
      → verify_sigs p op b ≡ true
  pub full : (msg : Bytes) → covers (egg_mask (signer.eggs msg m)) m ≡ true

pub signed_op :
    (p : Primitives) (signer : FleetSigner) (b : KeyBundle) (m : Mask) (d : Draft)
    → CanSign p signer b m
    → verify_sigs p (sign_op_plated p signer d m) b ≡ true
unfolding sign_op_plated unsigned_op
signed_op p signer b m d can =
    can.signs (sign_op_plated p signer d m) refl
      (ap (λ msg. signer.eggs msg m) (sym (signing_bytes-sigs p (unsigned_op d signer.public) _ _)))

-- The walk's link is the head of the chain that it has read.
pub fold_ops-head :
    (p : Primitives) (identity : Bytes) (i : ℕ) (op : FleetOp) (ops : List FleetOp) (w u : Walk)
    → fold_ops p identity i (op ∷ ops) w ≡ ok u
    → u.expected_prev ≡ head p (op ∷ ops)
unfolding fold_ops head finish
fold_ops-head p identity i op [] w u h =
    let (v, step, rest) = fold_ops-cons p identity i op [] w u h in
    let (shape, authorised, (t, applied, result)) = fold_step-eq-ok p identity i op w v step in
    let same : v ≡ u = ground arith in ap (λ (x : Walk). x.expected_prev) (sym same ∙ result)
fold_ops-head p identity i op (next ∷ ops) w u h =
    let (v, step, rest) = fold_ops-cons p identity i op (next ∷ ops) w u h in
    fold_ops-head p identity (i + 1) next ops v u rest

-- The end of the walk of a chain that folds.
pub fold_inner-walk :
    (p : Primitives) (op : FleetOp) (ops : List FleetOp) (s : FoldState)
    → fold_inner p (op ∷ ops) ≡ ok s
    → (w : Walk) × (fold_ops p op.handle_proof 0 (op ∷ ops) (start p) ≡ ok w)
      × (w.state ≡ s)
      × (w.expected_prev ≡ head p (op ∷ ops))
unfolding fold_inner
fold_inner-walk p op ops s h =
    let (w, walked, result) = >>=-eq-ok (fold_ops p op.handle_proof 0 (op ∷ ops) (start p)) _ h in
    (w, walked, ground arith, fold_ops-head p op.handle_proof 0 op ops (start p) w walked)

-- One more op that the walk accepts.
pub fold_inner-snoc :
    (p : Primitives) (op : FleetOp) (ops : List FleetOp) (y : FleetOp) (w u : Walk)
    → fold_ops p op.handle_proof 0 (op ∷ ops) (start p) ≡ ok w
    → fold_step p op.handle_proof (suc (length ops)) y w ≡ ok u
    → fold_inner p ((op ∷ ops) ++ y ∷ []) ≡ ok u.state
unfolding fold_inner fold_ops
fold_inner-snoc p op ops y w u walked step =
    let e : 0 + length (op ∷ ops) ≡ suc (length ops) = omega arith in
    let whole = append-fold_ops p op.handle_proof 0 (op ∷ ops) (y ∷ []) (start p) w walked in
    rw (whole, e, step) refl

pub accepted :
    (p : Primitives) (identity : Bytes) (i : ℕ) (op : FleetOp) (w v : Walk)
    → check_shape identity w.expected_prev i op ≡ ok tt
    → check_authority p i op (record_plate op w) ≡ ok tt
    → apply_kind p op.kind i op (record_plate op w) ≡ ok v
    → fold_step p identity i op w ≡ ok (finish p op v)
unfolding fold_step
accepted p identity i op w v shape authority applied = rw (shape, authority, applied)

pub authorised :
    (p : Primitives) (i : ℕ) (op : FleetOp) (w : Walk)
    → owner_ok p op.bundle op.device_pubkey ≡ true
    → contains w.locked op.signer_pubkey ≡ false
    → covers (egg_mask op.sigs) w.floor ≡ true
    → verify_sigs p op (verify_with p op.kind op.bundle op.signer_pubkey w.bundles) ≡ true
    → check_authority p i op w ≡ ok tt
unfolding check_authority
authorised p i op w owned unlocked at_floor signed = ground arith

pub covers_trans : (a b c : Mask) → covers a b ≡ true → covers b c ≡ true → covers a c ≡ true
covers_trans a b c h k =
    Includes→covers a c (Includes-trans a b c (covers→Includes a b h) (covers→Includes b c k))
