-- ===== src/Fleet/Fold/Locks.antt =====
-- What it takes to lift a lock in a chain that folds (src/fleet.rs).
use fgtw.Base.{ℕ, suc, ◌≢◌, ◌≡◌, refl, ap, ◌⊎◌, inl, inr, true, false, not, List, ◌∷◌, ◌++◌, arith}
use fgtw.Base.Bytes.{Bytes, eqb_iff}
use fgtw.Base.Result.{ok}
use fgtw.Primitives.{Primitives}
use fgtw.Fleet.Op.{FleetOp, OpKind, genesis, add, remove, checkpoint, declare, lock, unlock}
use fgtw.Fleet.Members.{contains, contains-append, contains-retain_ne}
use fgtw.Fleet.Fold.Walk.{FoldState, Walk, record_plate}
use fgtw.Fleet.Fold.Apply.{apply_kind}
use fgtw.Fleet.Fold.Step.{finish, fold_step, fold_inner}
use fgtw.Fleet.Fold.Inversion.{fold_step-eq-ok}
use fgtw.Fleet.Fold.Effects.{apply_kind-eq-ok}
use fgtw.Fleet.Fold.Authority.{HasAuthority, fold_step-HasAuthority}
use fgtw.Fleet.Fold.Trace.{Happens, fold_inner-gains}

-- The op unlocks `d`, or takes it out of the fleet, by the authority that another device has in `s`.
pub record Frees (p : Primitives) (d : Bytes) (op : FleetOp) (s : FoldState) : Type 0 where
  pub kind : (op.kind ≡ unlock) ⊎ (op.kind ≡ remove)
  pub subject : op.device_pubkey ≡ d
  pub other : op.signer_pubkey ≢ d
  pub authority : HasAuthority p op s

apply_kind-unlocks :
    (p : Primitives) (k : OpKind) (i : ℕ) (op : FleetOp) (w v : Walk) (d : Bytes)
    → apply_kind p k i op w ≡ ok v
    → contains w.locked d ≡ true
    → contains v.locked d ≡ false
    → ((k ≡ unlock) ⊎ (k ≡ remove)) × (op.device_pubkey ≡ d)
apply_kind-unlocks p genesis i op w v d h a b =
    absurd (ground (arith, (apply_kind-eq-ok p genesis i op w v h).0.result))
apply_kind-unlocks p add i op w v d h a b =
    absurd (ground (arith, (apply_kind-eq-ok p add i op w v h).0.result))
apply_kind-unlocks p remove i op w v d h a b =
    let facts = (apply_kind-eq-ok p remove i op w v h).0 in
    (
      inr refl,
      ground (
        arith,
        facts.result,
        contains-retain_ne op.device_pubkey d w.locked,
        eqb_iff op.device_pubkey d,
      ),
    )
apply_kind-unlocks p declare i op w v d h a b =
    absurd (ground (arith, (apply_kind-eq-ok p declare i op w v h).0.result))
apply_kind-unlocks p lock i op w v d h a b =
    let facts = (apply_kind-eq-ok p lock i op w v h).0 in
    absurd (ground (arith, facts.result, contains-append w.locked op.device_pubkey d))
apply_kind-unlocks p unlock i op w v d h a b =
    let facts = (apply_kind-eq-ok p unlock i op w v h).0 in
    (
      inl refl,
      ground (
        arith,
        facts.result,
        contains-retain_ne op.device_pubkey d w.locked,
        eqb_iff op.device_pubkey d,
      ),
    )
apply_kind-unlocks p checkpoint i op w v d h a b =
    absurd (ground (arith, (apply_kind-eq-ok p checkpoint i op w v h).1))

Frees-step :
    (p : Primitives) (identity d : Bytes) (i : ℕ) (op : FleetOp) (w w' : Walk)
    → fold_step p identity (suc i) op w ≡ ok w'
    → not (contains w.locked d) ≡ false
    → not (contains w'.locked d) ≡ true
    → Frees p d op w.state
unfolding finish record_plate
Frees-step p identity d i op w w' h a b =
    let (shape, authorised, (v, applied, result)) = fold_step-eq-ok p identity (suc i) op w w' h in
    let was : contains w.locked d ≡ true = ground arith in
    let (kind, subject) =
      apply_kind-unlocks p op.kind (suc i) op (record_plate op w) v d applied was
        (ground (arith, ap (λ (u : Walk). u.locked) result)) in
    record {
      kind = kind;
      subject = subject;
      other = λ own. absurd (ground (arith, authorised.unlocked, ap (contains w.locked) own, was));
      authority = fold_step-HasAuthority p identity i op w w' h;
    }

-- A device that a chain held as locked out, and a longer chain no longer does, was unlocked or taken
-- out by an op between the two whose signer is another device and had authority in the fold of the
-- ops before it: a locked device never frees itself.
pub fold_inner-Frees :
    (p : Primitives) (d : Bytes) (op : FleetOp) (xs ys : List FleetOp) (s t : FoldState)
    → fold_inner p (op ∷ xs) ≡ ok s
    → fold_inner p ((op ∷ xs) ++ ys) ≡ ok t
    → contains s.locked d ≡ true
    → contains t.locked d ≡ false
    → Happens p (op ∷ xs) ys (Frees p d)
fold_inner-Frees p d op xs ys s t e h a b =
    fold_inner-gains p (λ u. not (contains u.locked d)) (Frees p d) op xs ys s t
      (λ i o w w'. Frees-step p op.handle_proof d i o w w') e h (ground arith) (ground arith)
