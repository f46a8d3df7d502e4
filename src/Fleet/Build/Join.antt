-- ===== src/Fleet/Build/Join.antt =====
-- That an add which src/fleet.rs `add_with` appends folds.
use fgtw.Base.{
  ℕ, suc, ◌<◌, ◌≡◌, refl, true, false, Option, some, List, [], ◌∷◌, ◌++◌, arith, length,
}
use fgtw.Base.Bytes.{Bytes, zero32, eqb_refl}
use fgtw.Base.Int.{ℤ, pos}
use fgtw.Base.Result.{ok}
use fgtw.Primitives.{Primitives, Egg}
use fgtw.Pq.Scheme.{Mask, covers, egg_mask}
use fgtw.Pq.Bundle.{KeyBundle}
use fgtw.Fleet.Op.{FleetOp, add}
use fgtw.Fleet.Signing.{verify_sigs, op_time_max}
use fgtw.Fleet.Members.{contains, push_slot}
use fgtw.Fleet.Query.{handle_proof, declared_mask}
use fgtw.Fleet.Fold.Walk.{FoldState, Walk, check_shape, record_plate}
use fgtw.Fleet.Fold.Apply.{bundle_of, verify_with, owner_ok, apply_add, apply_kind}
use fgtw.Fleet.Fold.Step.{finish, fold_step, fold_inner}
use fgtw.Fleet.Build.Signer.{FleetSigner, Draft, unsigned_op, cosign, sign_op_plated}
use fgtw.Fleet.Build.Ops.{bare_draft, add_with, chain_identity}
use fgtw.Fleet.Build.Append.{
  CanSign, signed_op, fold_inner-walk, fold_inner-snoc, accepted, authorised, covers_trans,
}
use Prim.Native.Nat.{bit_or}
use fgtw.Base.{◌≤◌}
use fgtw.Base.Int.{abs_diff}
use fgtw.Pq.Bundle.{mask}
use fgtw.Pq.Eggs.{verify_eggs}
use fgtw.Fleet.Op.{plate_known}
use fgtw.Fleet.Signing.{bundle_or_ed, bindreq_signing_bytes_plated, verify_consent, consent_window}

-- What the joiner brings, and why the state `s` admits it: it is no member, its bundle is its own
-- and covers the floor, and its eggs over its binding request verify under that bundle and cover
-- the bundle and the floor; its stamp is near that of the op, and its plate kind is known.
pub record CanJoin (p : Primitives) (s : FoldState) (identity d : Bytes) (n : ℕ) (consent_t : ℤ)
    (consent : List Egg) (bundle : Option KeyBundle) (plate : Option Bytes) (plate_kind : ℕ)
    : Type 0 where
  pub fresh : contains s.members d ≡ false
  pub owned : owner_ok p bundle d ≡ true
  pub capable : covers (mask (bundle_or_ed p d bundle)) s.floor ≡ true
  pub consented :
      verify_eggs p consent
        (bundle_or_ed p d bundle)
        (bindreq_signing_bytes_plated identity d consent_t plate plate_kind)
        (bit_or (mask (bundle_or_ed p d bundle)) s.floor)
      ≡ true
  pub timely : abs_diff (pos n) consent_t ≤ consent_window p
  pub known : plate_known plate_kind ≡ true

join_draft : Bytes → Bytes → Bytes → ℕ → ℤ → List Egg → Option KeyBundle → Option Bytes → ℕ → Draft
join_draft identity prev d n consent_t consent bundle plate plate_kind =
    record (bare_draft identity prev add d (pos n)) {
      consent = some (consent_t, consent);
      bundle = bundle;
      plate = plate;
      plate_kind = plate_kind;
    }

module _ (p : Primitives) (signer : FleetSigner) (identity d : Bytes) (i n : ℕ) (m : Mask)
    (consent_t : ℤ) (consent : List Egg) (bundle : Option KeyBundle) (plate : Option Bytes)
    (plate_kind : ℕ) (w : Walk) where
  check_shape-join :
      n < op_time_max
      → plate_known plate_kind ≡ true
      → check_shape identity w.expected_prev i (
          sign_op_plated p signer
            (join_draft identity w.expected_prev d n consent_t consent bundle plate plate_kind)
            m)
        ≡ ok tt
  unfolding check_shape sign_op_plated unsigned_op cosign join_draft
  check_shape-join early known =
      ground (arith, eqb_refl identity, eqb_refl w.expected_prev, eqb_refl zero32)

  join_step :
      CanSign p signer (bundle_of p signer.public w.bundles) m
      → covers m w.floor ≡ true
      → contains w.members signer.public ≡ true
      → contains w.locked signer.public ≡ false
      → CanJoin p w.state identity d n consent_t consent bundle plate plate_kind
      → n < op_time_max
      → (u : Walk) × (fold_step p identity i
            (sign_op_plated p signer
              (join_draft identity w.expected_prev d n consent_t consent bundle plate plate_kind)
              m)
            w
          ≡ ok u)
        × (u.members ≡ w.members ++ d ∷ [])
        × (u.locked ≡ w.locked)
  unfolding record_plate finish
  join_step can at_floor_m member unlocked joins early = (
    finish p y v,
    accepted p identity i y w v (check_shape-join early joins.known)
        (authorised p i y (record_plate y w) owned unlocked_y at_floor signed) applied,
    refl,
    refl,
  )
    where
      draft : Draft
      draft = join_draft identity w.expected_prev d n consent_t consent bundle plate plate_kind

      y : FleetOp
      y = sign_op_plated p signer draft m

      v : Walk
      v =
          let r = record_plate y w in
          record r {
            state = record r.state {
              members = w.members ++ d ∷ [];
              bundles = push_slot d (bundle_or_ed p d bundle) w.bundles;
            };
          }

      owned : owner_ok p y.bundle y.device_pubkey ≡ true
      owned = unfold sign_op_plated unsigned_op join_draft in joins.owned

      unlocked_y : contains (record_plate y w).locked y.signer_pubkey ≡ false
      unlocked_y = unfold sign_op_plated unsigned_op in unlocked

      at_floor : covers (egg_mask y.sigs) (record_plate y w).floor ≡ true
      at_floor = unfold sign_op_plated in covers_trans _ m w.floor (can.full _) at_floor_m

      signed : verify_sigs p y (verify_with p y.kind y.bundle y.signer_pubkey w.bundles) ≡ true
      signed =
          unfold verify_with sign_op_plated unsigned_op join_draft in
          signed_op p signer _ m draft can

      applied : apply_kind p y.kind i y (record_plate y w) ≡ ok v
      applied =
          unfold apply_kind apply_add sign_op_plated unsigned_op verify_consent join_draft in
          ground (arith, joins.fresh, joins.capable, joins.consented, joins.timely)

-- An add that a member signs folds, if the signer is not locked, its eggs verify and cover what the
-- chain knows it holds, that covers the floor, the joiner can join, and the stamp is not negative and
-- below 2^62: the device is the newest member, and what is locked stays.
pub add_with-folds :
    (p : Primitives) (op : FleetOp) (ops : List FleetOp) (s : FoldState) (signer : FleetSigner)
    (d : Bytes) (n : ℕ) (consent_t : ℤ) (consent : List Egg) (bundle : Option KeyBundle)
    (plate : Option Bytes) (plate_kind : ℕ)
    → fold_inner p (op ∷ ops) ≡ ok s
    → CanSign p signer
        (bundle_of p signer.public s.bundles)
        (declared_mask p (op ∷ ops) signer.public)
    → covers (declared_mask p (op ∷ ops) signer.public) s.floor ≡ true
    → contains s.members signer.public ≡ true
    → contains s.locked signer.public ≡ false
    → CanJoin p s op.handle_proof d n consent_t consent bundle plate plate_kind
    → n < op_time_max
    → (t : FoldState) × (fold_inner p
          (add_with p (op ∷ ops) signer d (pos n) consent_t consent bundle plate plate_kind)
        ≡ ok t)
      × (t.members ≡ s.members ++ d ∷ [])
      × (t.locked ≡ s.locked)
unfolding add_with chain_identity handle_proof join_draft
add_with-folds p op ops s signer d n consent_t consent bundle plate plate_kind h can capable member
      unlocked joins early =
    let (w, walked, state, prev) = fold_inner-walk p op ops s h in
    let (u, step, members, locked) =
      join_step p signer op.handle_proof d (suc (length ops)) n
        (declared_mask p (op ∷ ops) signer.public) consent_t consent bundle plate plate_kind w
        (rw state can) (rw state capable) (rw state member) (rw state unlocked) (rw state joins)
        early in
    (
      u.state,
      fold_inner-snoc p op ops _ w u walked (rw prev at step),
      rw (← state) members,
      rw (← state) locked,
    )
