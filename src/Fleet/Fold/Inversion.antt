-- ===== src/Fleet/Fold/Inversion.antt =====
-- What an op that the walk of src/fleet.rs accepted must satisfy, phase by phase.
use Prim.Native.Nat.{bit_or}
use fgtw.Base.{ℕ, ◌≤◌, ◌≡◌, refl, ◌⊎◌, inl, inr, true, false, not, List, [], ◌∷◌, ◌++◌, arith}
use fgtw.Base.Bytes.{Bytes, eqb, eqb_iff}
use fgtw.Base.Int.{abs_diff}
use fgtw.Base.Result.{ok, >>=-eq-ok, reject-eq-ok}
use fgtw.Primitives.{Primitives, Egg}
use fgtw.Pq.Scheme.{covers, egg_mask}
use fgtw.Pq.Bundle.{mask}
use fgtw.Fleet.Op.{FleetOp}
use fgtw.Fleet.Signing.{
  consent_window, verify_consent, verify_depart_consent, verify_sigs, bundle_or_ed,
}
use fgtw.Fleet.Members.{contains, retain_ne, push_slot}
use fgtw.Fleet.Fold.Walk.{FoldState, Walk, check_shape, record_plate}
use fgtw.Fleet.Fold.Apply.{
  bundle_of, verify_with, owner_ok, check_authority, apply_genesis, apply_add, check_leave,
  apply_remove, apply_kind,
}
use fgtw.Fleet.Fold.Step.{finish, fold_step}

-- What `check_authority` lets through.
pub record IsAuthorised (p : Primitives) (op : FleetOp) (w : Walk) : Type 0 where
  pub owned : owner_ok p op.bundle op.device_pubkey ≡ true
  pub unlocked : contains w.locked op.signer_pubkey ≡ false
  pub at_floor : covers (egg_mask op.sigs) w.floor ≡ true
  pub signed : verify_sigs p op (verify_with p op.kind op.bundle op.signer_pubkey w.bundles) ≡ true

pub check_authority-IsAuthorised :
    (p : Primitives) (i : ℕ) (op : FleetOp) (w : Walk)
    → check_authority p i op w ≡ ok tt
    → IsAuthorised p op w
unfolding check_authority
check_authority-IsAuthorised p i op w h = ground arith

-- An accepted op passed every phase, in the order of the code.
pub fold_step-eq-ok :
    (p : Primitives) (identity : Bytes) (i : ℕ) (op : FleetOp) (w w' : Walk)
    → fold_step p identity i op w ≡ ok w'
    → (check_shape identity w.expected_prev i op ≡ ok tt)
      × IsAuthorised p op (record_plate op w)
      × ((v : Walk) × (apply_kind p op.kind i op (record_plate op w) ≡ ok v) × (w' ≡ finish p op v))
unfolding fold_step
fold_step-eq-ok p identity i op w w' h =
    let (u, shape, h₁) = >>=-eq-ok (check_shape identity w.expected_prev i op) _ h in
    let (u', authority, h₂) = >>=-eq-ok (check_authority p i op (record_plate op w)) _ h₁ in
    let (v, applied, h₃) = >>=-eq-ok (apply_kind p op.kind i op (record_plate op w)) _ h₂ in
    (shape, check_authority-IsAuthorised p i op (record_plate op w) authority, (v, applied, cc))

-- What each kind of op requires of the state, and the state that it leaves.
pub record GenesisFacts (p : Primitives) (i : ℕ) (op : FleetOp) (s t : FoldState) : Type 0 where
  pub at_start : i ≡ 0
  pub no_members : s.members ≡ []
  pub self_signed : op.signer_pubkey ≡ op.device_pubkey
  pub result : t ≡ record s { members = s.members ++ op.device_pubkey ∷ [] }

pub record AddFacts (p : Primitives) (op : FleetOp) (s t : FoldState) : Type 0 where
  pub sponsor : contains s.members op.signer_pubkey ≡ true
  pub fresh : contains s.members op.device_pubkey ≡ false
  pub capable : covers (mask (bundle_or_ed p op.device_pubkey op.bundle)) s.floor ≡ true
  pub consented :
      verify_consent p op
        (bundle_or_ed p op.device_pubkey op.bundle)
        (bit_or (mask (bundle_or_ed p op.device_pubkey op.bundle)) s.floor)
      ≡ true
  pub timely : abs_diff op.eagle_time op.consent_t ≤ consent_window p
  pub result : t ≡ record s {
    members = s.members ++ op.device_pubkey ∷ [];
    bundles = push_slot op.device_pubkey (bundle_or_ed p op.device_pubkey op.bundle) s.bundles;
  }

-- A member leaves by its own hand: it signs the op, or a request that another member countersigns.
abbrev pub LeavesByConsent : Primitives → FleetOp → FoldState → Type 0
LeavesByConsent p op s =
    ((op.consent ≡ []) × (op.signer_pubkey ≡ op.device_pubkey))
    ⊎ ((eqb op.signer_pubkey op.device_pubkey ≡ false)
        × (verify_depart_consent p op (bundle_of p op.device_pubkey s.bundles) s.floor ≡ true)
        × (abs_diff op.eagle_time op.consent_t ≤ consent_window p))

pub record RemoveFacts (p : Primitives) (op : FleetOp) (s t : FoldState) : Type 0 where
  pub signer : contains s.members op.signer_pubkey ≡ true
  pub leave : LeavesByConsent p op s
  pub result : t ≡ record s {
    members = retain_ne op.device_pubkey s.members;
    locked = retain_ne op.device_pubkey s.locked;
  }

pub apply_genesis-eq-ok :
    (p : Primitives) (i : ℕ) (op : FleetOp) (s t : FoldState)
    → apply_genesis p i op s ≡ ok t
    → GenesisFacts p i op s t
unfolding apply_genesis
apply_genesis-eq-ok p i op s t h = ground (arith, eqb_iff op.signer_pubkey op.device_pubkey)

pub apply_add-eq-ok :
    (p : Primitives) (i : ℕ) (op : FleetOp) (s t : FoldState)
    → apply_add p i op s ≡ ok t
    → AddFacts p op s t
unfolding apply_add
apply_add-eq-ok p i op s t h = ground arith

check_leave-eq-ok :
    (p : Primitives) (l : List Egg) (i : ℕ) (op : FleetOp) (s : FoldState)
    → check_leave p l i op s ≡ ok tt
    → ((l ≡ []) × (op.signer_pubkey ≡ op.device_pubkey))
      ⊎ ((eqb op.signer_pubkey op.device_pubkey ≡ false)
          × (verify_depart_consent p op (bundle_of p op.device_pubkey s.bundles) s.floor ≡ true)
          × (abs_diff op.eagle_time op.consent_t ≤ consent_window p))
unfolding check_leave
check_leave-eq-ok p [] i op s h =
    inl (refl, ground (arith, eqb_iff op.signer_pubkey op.device_pubkey))
check_leave-eq-ok p (e ∷ es) i op s h = inr (ground arith, ground arith, ground arith)

pub apply_remove-eq-ok :
    (p : Primitives) (i : ℕ) (op : FleetOp) (s t : FoldState)
    → apply_remove p i op s ≡ ok t
    → RemoveFacts p op s t
unfolding apply_remove
apply_remove-eq-ok p i op s t h =
    let (signer, h₁) = reject-eq-ok (not (contains s.members op.signer_pubkey)) _ _ h in
    let (u, leave, h₂) = >>=-eq-ok (check_leave p op.consent i op s) _ h₁ in
    record {
      signer = ground arith;
      leave = check_leave-eq-ok p op.consent i op s leave;
      result = ground arith;
    }
