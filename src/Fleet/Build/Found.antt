-- ===== src/Fleet/Build/Found.antt =====
-- That the chains which src/fleet.rs `genesis_v2` founds fold.
use fgtw.Base.{ℕ, ◌<◌, ◌≡◌, refl, ◌≢◌, true, [], ◌∷◌, arith}
use fgtw.Base.Bytes.{Bytes, zero32, eqb_refl, eqb-false}
use fgtw.Base.Int.{pos}
use fgtw.Base.Result.{ok}
use fgtw.Primitives.{Primitives}
use fgtw.Base.Bits.{Includes-or_left}
use fgtw.Pq.Scheme.{Includes→covers, covers, mask_base}
use fgtw.Pq.Bundle.{ed25519_only}
use fgtw.Fleet.Op.{FleetOp, genesis}
use fgtw.Fleet.Signing.{op_time_max}
use fgtw.Fleet.Members.{contains, find_slot}
use fgtw.Fleet.Fold.Walk.{FoldState, Walk, check_shape, record_plate}
use fgtw.Fleet.Fold.Apply.{
  bundle_of, verify_with, owner_ok, check_authority, apply_genesis, apply_kind,
}
use fgtw.Fleet.Fold.Step.{finish, fold_step, fold_ops, fold_inner, start, live_mask}
use fgtw.Fleet.Build.Signer.{FleetSigner, Draft, unsigned_op, cosign, sign_op_plated}
use fgtw.Fleet.Build.Ops.{bare_draft, genesis_v2}
use fgtw.Fleet.Build.Append.{CanSign, signed_op, accepted, authorised}

-- The chain that `genesis_v2` founds folds, if the signer's eggs under the base mask verify and
-- cover it, the identity key is not all zero, and the stamp is not negative and below 2^62: the founder is the
-- one member, nothing is locked, and the floor has Ed25519.
pub genesis_v2-folds :
    (p : Primitives) (signer : FleetSigner) (identity seed : Bytes) (n : ℕ)
    → CanSign p signer (ed25519_only p signer.public) (mask_base p)
    → p.dalek_public seed ≢ zero32
    → n < op_time_max
    → (t : FoldState) × (fold_inner p (genesis_v2 p signer identity seed (pos n)) ≡ ok t)
      × (t.members ≡ signer.public ∷ [])
      × (t.locked ≡ [])
      × (covers t.floor (mask_base p) ≡ true)
unfolding genesis_v2 fold_inner fold_ops record_plate finish start fold_step mask_base
    sign_op_plated check_shape live_mask unsigned_op
genesis_v2-folds p signer identity seed n can owner early = (
  (finish p y v).state,
  rw (accepted p identity 0 y (start p) v shape authority applied),
  refl,
  refl,
  base,
)
  where
    draft : Draft
    draft = record (bare_draft identity zero32 genesis signer.public (pos n)) {
      identity_pubkey = p.dalek_public seed;
    }

    y : FleetOp
    y = sign_op_plated p signer draft (mask_base p)

    v : Walk
    v =
        let r = record_plate y (start p) in
        record r { state = record r.state { members = signer.public ∷ [] } }

    shape : check_shape identity zero32 0 y ≡ ok tt
    shape =
        unfold check_shape sign_op_plated unsigned_op cosign in
        ground (arith, eqb_refl identity, eqb_refl zero32)

    base : covers (finish p y v).floor (mask_base p) ≡ true
    base = Includes→covers _ _ (Includes-or_left (mask_base p) _)

    authority : check_authority p 0 y (record_plate y (start p)) ≡ ok tt
    authority =
        authorised p 0 y (record_plate y (start p))
          (unfold sign_op_plated unsigned_op owner_ok in refl) (unfold contains in refl)
          (unfold sign_op_plated in can.full _)
          (unfold verify_with bundle_of find_slot sign_op_plated unsigned_op in
            signed_op p signer _ (mask_base p) draft can)

    applied : apply_kind p y.kind 0 y (record_plate y (start p)) ≡ ok v
    applied =
        unfold apply_kind apply_genesis sign_op_plated unsigned_op cosign in
        ground (arith, eqb_refl signer.public, eqb-false (p.dalek_public seed) zero32 owner)
