-- ===== src/Fleet/Build/Lock.antt =====
-- That a lock which src/fleet.rs `lock` appends folds.
use fgtw.Base.{ℕ, suc, ◌<◌, ◌≡◌, refl, ◌≢◌, true, false, some, List, [], ◌∷◌, ◌++◌, arith, length}
use fgtw.Base.Bytes.{Bytes, zero32, eqb_refl, eqb-false}
use fgtw.Base.Int.{pos}
use fgtw.Base.Result.{ok}
use fgtw.Primitives.{Primitives}
use fgtw.Pq.Scheme.{Mask, covers, egg_mask}
use fgtw.Fleet.Op.{FleetOp, lock}
use fgtw.Fleet.Signing.{verify_sigs, op_time_max}
use fgtw.Fleet.Members.{contains}
use fgtw.Fleet.Query.{MembershipBlob, head, handle_proof, declared_mask}
use fgtw.Fleet.Fold.Walk.{FoldState, Walk, check_shape, record_plate}
use fgtw.Fleet.Fold.Apply.{bundle_of, verify_with, owner_ok, apply_lock, apply_kind}
use fgtw.Fleet.Fold.Step.{finish, fold_step, fold_inner}
use fgtw.Fleet.Build.Signer.{FleetSigner, Draft, unsigned_op, cosign, sign_op_plated}
use fgtw.Fleet.Build.Ops.{bare_draft, lock_op, lock_device}
use fgtw.Fleet.Build.Append.{
  CanSign, signed_op, fold_inner-walk, fold_inner-snoc, accepted, authorised, covers_trans,
}

check_shape-lock :
    (p : Primitives) (signer : FleetSigner) (identity prev d : Bytes) (i n : ℕ) (m : Mask)
    → n < op_time_max
    → check_shape identity prev i
        (sign_op_plated p signer (bare_draft identity prev lock d (pos n)) m)
      ≡ ok tt
unfolding check_shape sign_op_plated unsigned_op cosign
check_shape-lock p signer identity prev d i n m h =
    ground (arith, eqb_refl identity, eqb_refl prev, eqb_refl zero32)

lock_step :
    (p : Primitives) (signer : FleetSigner) (identity d : Bytes) (i n : ℕ) (m : Mask) (w : Walk)
    → CanSign p signer (bundle_of p signer.public w.bundles) m
    → covers m w.floor ≡ true
    → contains w.members signer.public ≡ true
    → contains w.locked signer.public ≡ false
    → contains w.members d ≡ true
    → contains w.locked d ≡ false
    → d ≢ signer.public
    → n < op_time_max
    → (u : Walk) × (fold_step p identity i
          (sign_op_plated p signer (bare_draft identity w.expected_prev lock d (pos n)) m)
          w
        ≡ ok u)
      × (u.members ≡ w.members)
      × (u.locked ≡ w.locked ++ d ∷ [])
unfolding record_plate finish
lock_step p signer identity d i n m w can capable member unlocked subject fresh other early = (
  finish p y v,
  accepted p identity i y w v (check_shape-lock p signer identity w.expected_prev d i n m early)
      (authorised p i y (record_plate y w) owned unlocked_y at_floor signed) applied,
  refl,
  refl,
)
  where
    draft : Draft
    draft = bare_draft identity w.expected_prev lock d (pos n)

    y : FleetOp
    y = sign_op_plated p signer draft m

    v : Walk
    v =
        let r = record_plate y w in
        record r { state = record r.state { locked = w.locked ++ d ∷ [] } }

    owned : owner_ok p y.bundle y.device_pubkey ≡ true
    owned = unfold sign_op_plated unsigned_op owner_ok in refl

    unlocked_y : contains (record_plate y w).locked y.signer_pubkey ≡ false
    unlocked_y = unfold sign_op_plated unsigned_op in unlocked

    at_floor : covers (egg_mask y.sigs) (record_plate y w).floor ≡ true
    at_floor = unfold sign_op_plated in covers_trans _ m w.floor (can.full _) capable

    signed : verify_sigs p y (verify_with p y.kind y.bundle y.signer_pubkey w.bundles) ≡ true
    signed = unfold verify_with sign_op_plated unsigned_op in signed_op p signer _ m draft can

    applied : apply_kind p y.kind i y (record_plate y w) ≡ ok v
    applied =
        unfold apply_kind apply_lock sign_op_plated unsigned_op in
        ground (arith, eqb-false d signer.public other)

-- A lock that a member signs, against another member that is not locked, folds, if the signer is
-- not locked, its eggs verify and cover what the chain knows it holds, that covers the floor, and the
-- stamp is not negative and below 2^62: the members stay, and the device is locked out.
pub lock_device-folds :
    (p : Primitives) (op : FleetOp) (ops : List FleetOp) (s : FoldState) (signer : FleetSigner)
    (d : Bytes) (n : ℕ)
    → fold_inner p (op ∷ ops) ≡ ok s
    → CanSign p signer
        (bundle_of p signer.public s.bundles)
        (declared_mask p (op ∷ ops) signer.public)
    → covers (declared_mask p (op ∷ ops) signer.public) s.floor ≡ true
    → contains s.members signer.public ≡ true
    → contains s.locked signer.public ≡ false
    → contains s.members d ≡ true
    → contains s.locked d ≡ false
    → d ≢ signer.public
    → n < op_time_max
    → (chain : MembershipBlob) × (t : FoldState) × (lock_device p (op ∷ ops) signer d (pos n)
        ≡ some chain)
      × (fold_inner p chain ≡ ok t)
      × (t.members ≡ s.members)
      × (t.locked ≡ s.locked ++ d ∷ [])
unfolding lock_device lock_op handle_proof
lock_device-folds p op ops s signer d n h can capable member unlocked subject fresh other early =
    let (w, walked, state, prev) = fold_inner-walk p op ops s h in
    let (u, step, members, locked) =
      lock_step p signer op.handle_proof d (suc (length ops)) n
        (declared_mask p (op ∷ ops) signer.public) w (rw state can) (rw state capable)
        (rw state member) (rw state unlocked) (rw state subject) (rw state fresh) other early in
    (
      (op ∷ ops)
          ++ sign_op_plated p signer (bare_draft op.handle_proof (head p (op ∷ ops)) lock d (pos n))
              (declared_mask p (op ∷ ops) signer.public)
            ∷ [],
      u.state,
      refl,
      fold_inner-snoc p op ops _ w u walked (rw prev at step),
      rw (← state) members,
      rw (← state) locked,
    )
