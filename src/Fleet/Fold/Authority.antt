-- ===== src/Fleet/Fold/Authority.antt =====
-- What src/fleet.rs `fold_inner` demands of an op's signer, said of the fold of the ops before it.
use fgtw.Base.{
  ℕ, suc, ◌≡◌, refl, ◌⊎◌, inl, inr, true, false, Option, none, some, arith, Option-cases,
}
use fgtw.Base.Bytes.{Bytes, eqb_iff}
use fgtw.Base.Result.{ok}
use fgtw.Primitives.{Primitives}
use fgtw.Pq.Scheme.{covers, egg_mask}
use fgtw.Pq.Bundle.{KeyBundle, ed25519, ed25519_only}
use fgtw.Fleet.Op.{FleetOp, OpKind, genesis, add, remove, checkpoint, declare, lock, unlock}
use fgtw.Fleet.Signing.{verify_sigs}
use fgtw.Fleet.Members.{contains, find_slot}
use fgtw.Fleet.Fold.Walk.{FoldState, Walk, record_plate}
use fgtw.Fleet.Fold.Apply.{apply_kind, owner_ok, verify_with, bundle_of}
use fgtw.Fleet.Fold.Step.{fold_step}
use fgtw.Fleet.Fold.Inversion.{fold_step-eq-ok}
use fgtw.Fleet.Fold.Effects.{apply_kind-eq-ok}

-- The bundle that a state holds for a device: the first that it lists, or Ed25519 alone.
abbrev pub Holds : Primitives → FoldState → Bytes → KeyBundle → Type 0
Holds p s d b =
    (find_slot d s.bundles ≡ some b) ⊎ ((find_slot d s.bundles ≡ none) × (b ≡ ed25519_only p d))

-- The bundle that an op's eggs verify under: for a declare the one that it carries.
abbrev pub SignsUnder :
    Primitives → FoldState → OpKind → Option KeyBundle → Bytes → KeyBundle → Type 0
SignsUnder p s declare (some carried) signer b = b ≡ carried
SignsUnder p s _ _ signer b = Holds p s signer b

-- A bundle that an op carries has the Ed25519 key of the op's device.
abbrev pub IsOwned : Primitives → FleetOp → Type 0
IsOwned p op = (b : KeyBundle) → op.bundle ≡ some b → ed25519 p b ≡ op.device_pubkey

-- What the state before an op grants its signer: it is a member, it is not locked out, the op
-- carries every scheme of the floor, and every signature verifies under the bundle that the state
-- holds for the signer. A declare is of the signer's own device, and its signatures verify under the
-- bundle that it carries, whose Ed25519 key is that device's.
pub record HasAuthority (p : Primitives) (op : FleetOp) (s : FoldState) : Type 0 where
  pub member : contains s.members op.signer_pubkey ≡ true
  pub unlocked : contains s.locked op.signer_pubkey ≡ false
  pub at_floor : covers (egg_mask op.sigs) s.floor ≡ true
  pub owned : IsOwned p op
  pub self_declared : op.kind ≡ declare → op.signer_pubkey ≡ op.device_pubkey
  pub signed :
      (b : KeyBundle) × SignsUnder p s op.kind op.bundle op.signer_pubkey b
      × (verify_sigs p op b ≡ true)

pub bundle_of-Holds :
    (p : Primitives) (s : FoldState) (d : Bytes) → Holds p s d (bundle_of p d s.bundles)
unfolding bundle_of
bundle_of-Holds p s d = elim (Option-cases (find_slot d s.bundles)) [
  | inl missing ↦ inr (missing, rw missing refl)
  | inr (b, found) ↦ inl (rw found refl)
]

pub verify_with-SignsUnder :
    (p : Primitives) (s : FoldState) (k : OpKind) (b : Option KeyBundle) (signer : Bytes)
    → SignsUnder p s k b signer (verify_with p k b signer s.bundles)
unfolding verify_with
verify_with-SignsUnder p s genesis b signer = bundle_of-Holds p s signer
verify_with-SignsUnder p s add b signer = bundle_of-Holds p s signer
verify_with-SignsUnder p s remove b signer = bundle_of-Holds p s signer
verify_with-SignsUnder p s checkpoint b signer = bundle_of-Holds p s signer
verify_with-SignsUnder p s declare none signer = bundle_of-Holds p s signer
verify_with-SignsUnder p s declare (some b) signer = refl
verify_with-SignsUnder p s lock b signer = bundle_of-Holds p s signer
verify_with-SignsUnder p s unlock b signer = bundle_of-Holds p s signer

owner_ok-own :
    (p : Primitives) (o : Option KeyBundle) (d : Bytes) (b : KeyBundle)
    → owner_ok p o d ≡ true
    → o ≡ some b
    → ed25519 p b ≡ d
unfolding owner_ok
owner_ok-own p none d b h e = cc
owner_ok-own p (some c) d b h e = (eqb_iff (ed25519 p b) d).0 (cc)

pub owner_ok-IsOwned :
    (p : Primitives) (op : FleetOp) → owner_ok p op.bundle op.device_pubkey ≡ true → IsOwned p op
owner_ok-IsOwned p op h b e = owner_ok-own p op.bundle op.device_pubkey b h e

-- The signer of an accepted op of any kind but genesis is a member.
pub signer-member :
    (p : Primitives) (k : OpKind) (i : ℕ) (op : FleetOp) (w v : Walk)
    → apply_kind p k (suc i) op w ≡ ok v
    → contains w.members op.signer_pubkey ≡ true
signer-member p genesis i op w v h =
    absurd (omega (arith, (apply_kind-eq-ok p genesis (suc i) op w v h).0.at_start))
signer-member p add i op w v h = (apply_kind-eq-ok p add (suc i) op w v h).0.sponsor
signer-member p remove i op w v h = (apply_kind-eq-ok p remove (suc i) op w v h).0.signer
signer-member p declare i op w v h =
    let facts = (apply_kind-eq-ok p declare (suc i) op w v h).0 in rw facts.self_signed facts.member
signer-member p lock i op w v h = (apply_kind-eq-ok p lock (suc i) op w v h).0.signer
signer-member p unlock i op w v h = (apply_kind-eq-ok p unlock (suc i) op w v h).0.signer
signer-member p checkpoint i op w v h = (apply_kind-eq-ok p checkpoint (suc i) op w v h).0.signer

own-declare :
    (p : Primitives) (k : OpKind) (i : ℕ) (op : FleetOp) (w v : Walk)
    → apply_kind p k i op w ≡ ok v
    → k ≡ declare
    → op.signer_pubkey ≡ op.device_pubkey
own-declare p declare i op w v h e = (apply_kind-eq-ok p declare i op w v h).0.self_signed
own-declare p genesis i op w v h e = cc
own-declare p add i op w v h e = cc
own-declare p remove i op w v h e = cc
own-declare p checkpoint i op w v h e = cc
own-declare p lock i op w v h e = cc
own-declare p unlock i op w v h e = cc

pub fold_step-HasAuthority :
    (p : Primitives) (identity : Bytes) (i : ℕ) (op : FleetOp) (w w' : Walk)
    → fold_step p identity (suc i) op w ≡ ok w'
    → HasAuthority p op w.state
unfolding record_plate
fold_step-HasAuthority p identity i op w w' h =
    let (shape, authorised, (v, applied, result)) = fold_step-eq-ok p identity (suc i) op w w' h in
    record {
      member = signer-member p op.kind i op (record_plate op w) v applied;
      unlocked = authorised.unlocked;
      at_floor = authorised.at_floor;
      owned = owner_ok-IsOwned p op authorised.owned;
      self_declared = own-declare p op.kind (suc i) op (record_plate op w) v applied;
      signed = (
        verify_with p op.kind op.bundle op.signer_pubkey w.bundles,
        verify_with-SignsUnder p w.state op.kind op.bundle op.signer_pubkey,
        authorised.signed,
      );
    }
