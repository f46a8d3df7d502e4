-- ===== src/Fleet/Fold/Membership.antt =====
-- How devices come into and leave the member set of a chain that folds (src/fleet.rs).
use Prim.Native.Nat.{bit_or}
use fgtw.Base.{
  ℕ, suc, ◌≢◌, none, some, ◌≤◌, ◌≡◌, ap, ◌⊎◌, inl, inr, true, false, not, List, [], ◌∷◌, ◌++◌,
  arith,
}
use fgtw.Base.Bytes.{Bytes, eqb_iff}
use fgtw.Base.Int.{abs_diff}
use fgtw.Base.Result.{ok}
use fgtw.Primitives.{Primitives}
use fgtw.Pq.Bundle.{KeyBundle, mask, ed25519, ed25519_only}
use fgtw.Pq.Eggs.{verify_eggs}
use fgtw.Fleet.Op.{FleetOp, genesis, add, remove}
use fgtw.Fleet.Signing.{
  bindreq_signing_bytes_plated, departreq_signing_bytes, verify_sigs, verify_depart_consent,
  consent_window,
}
use fgtw.Fleet.Members.{contains}
use fgtw.Fleet.Fold.Walk.{FoldState, Walk, record_plate}
use fgtw.Fleet.Fold.Apply.{bundle_of}
use fgtw.Fleet.Fold.Step.{finish, fold_step, fold_inner}
use fgtw.Fleet.Fold.Inversion.{fold_step-eq-ok}
use fgtw.Fleet.Fold.Changes.{apply_kind-drops}
use fgtw.Fleet.Fold.Authority.{HasAuthority, Holds, bundle_of-Holds, fold_step-HasAuthority}
use fgtw.Fleet.Fold.Trace.{Happens, fold_inner-gains}

-- `d` agreed to leave, as `s` lets it: it signed the op itself, or another device signed the op, which
-- carries eggs of `d` over a departure request of about that time, every scheme of the floor among
-- them, all good under the bundle that `s` holds for `d`.
abbrev pub AgreesToLeave : Primitives → Bytes → FleetOp → FoldState → Type 0
AgreesToLeave p d op s =
    ((op.consent ≡ []) × (op.signer_pubkey ≡ d))
    ⊎ ((op.signer_pubkey ≢ d)
        × ((b : KeyBundle) × Holds p s d b
            × (verify_eggs p op.consent b
                  (departreq_signing_bytes op.handle_proof op.device_pubkey op.consent_t) s.floor
                ≡ true))
        × (abs_diff op.eagle_time op.consent_t ≤ consent_window p))

-- The op takes `d`, which agrees, out of the fleet whose state is `s`.
pub record Departs (p : Primitives) (d : Bytes) (op : FleetOp) (s : FoldState) : Type 0 where
  pub kind : op.kind ≡ remove
  pub subject : op.device_pubkey ≡ d
  pub agreed : AgreesToLeave p d op s
  pub authority : HasAuthority p op s

-- The op founds the fleet with `d`, whose Ed25519 key signed it.
pub record Founds (p : Primitives) (d : Bytes) (op : FleetOp) : Type 0 where
  pub kind : op.kind ≡ genesis
  pub subject : op.device_pubkey ≡ d
  pub own : op.signer_pubkey ≡ d
  pub signed : verify_sigs p op (ed25519_only p d) ≡ true

-- The bundle that the added device joins with: the one on the op, whose Ed25519 key is the device's,
-- or Ed25519 alone.
abbrev pub JoinsWith : Primitives → FleetOp → KeyBundle → Type 0
JoinsWith p op b =
    ((op.bundle ≡ some b) × (ed25519 p b ≡ op.device_pubkey))
    ⊎ ((op.bundle ≡ none) × (b ≡ ed25519_only p op.device_pubkey))

-- The op adds `d`; the sponsor has authority in `s`; and the op carries eggs
-- of `d` over a binding request of about that time, all good under the bundle that `d` joins with,
-- every scheme of that bundle and of the floor among them.
pub record Joins (p : Primitives) (d : Bytes) (op : FleetOp) (s : FoldState) : Type 0 where
  pub kind : op.kind ≡ add
  pub subject : op.device_pubkey ≡ d
  pub consented :
      (b : KeyBundle) × JoinsWith p op b
      × (verify_eggs p op.consent b
            (bindreq_signing_bytes_plated op.handle_proof op.device_pubkey op.consent_t op.plate
              op.plate_kind)
            (bit_or (mask b) s.floor)
          ≡ true)
  pub timely : abs_diff op.eagle_time op.consent_t ≤ consent_window p
  pub authority : HasAuthority p op s

Departs-step :
    (p : Primitives) (identity d : Bytes) (i : ℕ) (op : FleetOp) (w w' : Walk)
    → fold_step p identity (suc i) op w ≡ ok w'
    → not (contains w.members d) ≡ false
    → not (contains w'.members d) ≡ true
    → Departs p d op w.state
unfolding finish record_plate verify_depart_consent
Departs-step p identity d i op w w' h a b =
    let (shape, authorised, (v, applied, result)) = fold_step-eq-ok p identity (suc i) op w w' h in
    let (kind, subject, leave) =
      apply_kind-drops p op.kind (suc i) op (record_plate op w) v d applied (ground arith)
        (ground (arith, ap (λ (u : Walk). u.members) result)) in
    record {
      kind = kind;
      subject = subject;
      agreed = elim leave [
        | inl (none_given, own) ↦ inl (none_given, cc)
        | inr (other, verified, timely) ↦ inr (
          λ own.
              absurd
                (ground (arith, other, eqb_iff op.signer_pubkey op.device_pubkey, subject, own)),
          (bundle_of p d w.bundles, bundle_of-Holds p w.state d, rw (← subject) verified),
          timely,
        )
      ];
      authority = fold_step-HasAuthority p identity i op w w' h;
    }

-- No device is expelled: one that a chain held as a member, and a longer chain no longer holds,
-- departed by an op between the two. The op's signer had authority in the fold of the ops before it,
-- and the device either was that signer, or gave a departure consent that verifies under the bundle
-- which that fold held for the device itself.
pub fold_inner-Departs :
    (p : Primitives) (d : Bytes) (op : FleetOp) (xs ys : List FleetOp) (s t : FoldState)
    → fold_inner p (op ∷ xs) ≡ ok s
    → fold_inner p ((op ∷ xs) ++ ys) ≡ ok t
    → contains s.members d ≡ true
    → contains t.members d ≡ false
    → Happens p (op ∷ xs) ys (Departs p d)
fold_inner-Departs p d op xs ys s t e h a b =
    fold_inner-gains p (λ u. not (contains u.members d)) (Departs p d) op xs ys s t
      (λ i o w w'. Departs-step p op.handle_proof d i o w w') e h (ground arith) (ground arith)
