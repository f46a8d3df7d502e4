-- ===== src/Fleet/Fold/Links.antt =====
-- What the structure of a chain that folds is: linked by hash, of one identity, with possible
-- stamps, founded once, with consecutive checkpoints (src/fleet.rs).
use fgtw.Base.{ℕ, suc, ◌+◌, ◌<◌, ◌≡◌, refl, ap, ◌≢◌, false, List, [], ◌∷◌, arith, All}
use fgtw.Base.Bytes.{Bytes, eqb_iff, zero32}
use fgtw.Base.Int.{ℤ, pos, negsuc, pos_part, neg_part, ltb_ℤ, leb_ℤ}
use fgtw.Base.Result.{ok}
use fgtw.Primitives.{Primitives}
use fgtw.Fleet.Op.{FleetOp, OpKind, genesis, add, remove, checkpoint, declare, lock, unlock}
use fgtw.Fleet.Signing.{chain_hash, op_time_max}
use fgtw.Fleet.Members.{contains}
use fgtw.Fleet.Fold.Walk.{FoldState, Walk, check_shape, record_plate}
use fgtw.Fleet.Fold.Apply.{apply_kind}
use fgtw.Fleet.Fold.Step.{finish, fold_ops, fold_inner, start}
use fgtw.Fleet.Fold.Inversion.{fold_step-eq-ok}
use fgtw.Fleet.Fold.Effects.{apply_kind-eq-ok}
use fgtw.Fleet.Fold.Trace.{fold_ops-cons, fold_inner-eq-ok}

-- Each op names the identity and the hash of the op before it, at a stamp in 0 ≤ t < 2^62.
abbrev pub IsLinked : Primitives → Bytes → Bytes → List FleetOp → Type 0
IsLinked p identity prev [] = Unit {0}
IsLinked p identity prev (op ∷ ops) =
    (op.handle_proof ≡ identity)
    × (op.prev_hash ≡ prev)
    × (neg_part op.eagle_time ≡ 0)
    × (pos_part op.eagle_time < op_time_max)
    × IsLinked p identity (chain_hash p op) ops

check_shape-links :
    (identity prev : Bytes) (i : ℕ) (op : FleetOp)
    → check_shape identity prev i op ≡ ok tt
    → (op.handle_proof ≡ identity)
      × (op.prev_hash ≡ prev)
      × (ltb_ℤ op.eagle_time (pos 0) ≡ false)
      × (leb_ℤ (pos op_time_max) op.eagle_time ≡ false)
unfolding check_shape
check_shape-links identity prev i op h =
    ground (arith, eqb_iff op.handle_proof identity, eqb_iff op.prev_hash prev)

stamp_range :
    (t : ℤ)
    → ltb_ℤ t (pos 0) ≡ false
    → leb_ℤ (pos op_time_max) t ≡ false
    → (neg_part t ≡ 0) × (pos_part t < op_time_max)
stamp_range (pos n) a b = ground arith
stamp_range (negsuc n) a b = absurd (ground arith)

fold_ops-IsLinked :
    (p : Primitives) (identity : Bytes) (i : ℕ) (ops : List FleetOp) (w u : Walk)
    → fold_ops p identity i ops w ≡ ok u
    → IsLinked p identity w.expected_prev ops
unfolding finish
fold_ops-IsLinked p identity i [] w u h = tt
fold_ops-IsLinked p identity i (op ∷ ops) w u h =
    let (w', step, later) = fold_ops-cons p identity i op ops w u h in
    let (shape, authorised, (v, applied, result)) = fold_step-eq-ok p identity i op w w' step in
    let (same, prev, low, high) = check_shape-links identity w.expected_prev i op shape in
    let (sign, bound) = stamp_range op.eagle_time low high in
    let next : w'.expected_prev ≡ chain_hash p op = ap (λ (t : Walk). t.expected_prev) result in
    (same, prev, sign, bound, rw next at (fold_ops-IsLinked p identity (i + 1) ops w' u later))

-- No op but the first is accepted as a genesis, and the first is accepted as nothing else.
apply_kind-genesis :
    (p : Primitives) (k : OpKind) (op : FleetOp) (w v : Walk)
    → w.members ≡ []
    → apply_kind p k 0 op w ≡ ok v
    → k ≡ genesis
unfolding contains
apply_kind-genesis p genesis op w v e h = refl
apply_kind-genesis p add op w v e h =
    absurd (ground (arith, (apply_kind-eq-ok p add 0 op w v h).0.sponsor))
apply_kind-genesis p remove op w v e h =
    absurd (ground (arith, (apply_kind-eq-ok p remove 0 op w v h).0.signer))
apply_kind-genesis p checkpoint op w v e h =
    absurd (ground (arith, (apply_kind-eq-ok p checkpoint 0 op w v h).0.signer))
apply_kind-genesis p declare op w v e h =
    absurd (ground (arith, (apply_kind-eq-ok p declare 0 op w v h).0.member))
apply_kind-genesis p lock op w v e h =
    absurd (ground (arith, (apply_kind-eq-ok p lock 0 op w v h).0.signer))
apply_kind-genesis p unlock op w v e h =
    absurd (ground (arith, (apply_kind-eq-ok p unlock 0 op w v h).0.signer))

apply_kind-later :
    (p : Primitives) (k : OpKind) (i : ℕ) (op : FleetOp) (w v : Walk)
    → apply_kind p k (suc i) op w ≡ ok v
    → k ≢ genesis
apply_kind-later p genesis i op w v h =
    absurd (omega (arith, (apply_kind-eq-ok p genesis (suc i) op w v h).0.at_start))
apply_kind-later p _ i op w v h = λ e. cc

fold_ops-later :
    (p : Primitives) (identity : Bytes) (i : ℕ) (ops : List FleetOp) (w u : Walk)
    → fold_ops p identity (suc i) ops w ≡ ok u
    → All (λ (op : FleetOp). op.kind ≢ genesis) ops
fold_ops-later p identity i [] w u h = tt
fold_ops-later p identity i (op ∷ ops) w u h =
    let (v, step, later) = fold_ops-cons p identity (suc i) op ops w u h in
    let (shape, authorised, (t, applied, result)) =
      fold_step-eq-ok p identity (suc i) op w v step in
    let next : suc i + 1 ≡ suc (suc i) = omega arith in
    (
      apply_kind-later p op.kind i op (record_plate op w) t applied,
      fold_ops-later p identity (suc i) ops v u (rw next at later),
    )

-- A chain that folds begins with a genesis and has no other; each op names the first op's identity
-- and the hash of the op before it (the first op, 32 zero bytes); every stamp is in 0 ≤ t < 2^62.
pub fold_inner-IsLinked :
    (p : Primitives) (ops : List FleetOp) (s : FoldState)
    → fold_inner p ops ≡ ok s
    → (op : FleetOp) × (rest : List FleetOp) × (ops ≡ op ∷ rest)
      × (op.kind ≡ genesis)
      × All (λ (o : FleetOp). o.kind ≢ genesis) rest
      × IsLinked p op.handle_proof zero32 (op ∷ rest)
unfolding start record_plate
fold_inner-IsLinked p ops s h =
    let (op, rest, w, split, walked, result) = fold_inner-eq-ok p ops s h in
    let (v, step, later) = fold_ops-cons p op.handle_proof 0 op rest (start p) w walked in
    let (shape, authorised, (t, applied, last)) =
      fold_step-eq-ok p op.handle_proof 0 op (start p) v step in
    let next : 0 + 1 ≡ suc 0 = omega arith in
    (
      op,
      rest,
      split,
      apply_kind-genesis p op.kind op (record_plate op (start p)) t refl applied,
      fold_ops-later p op.handle_proof 0 rest v w (rw next at later),
      fold_ops-IsLinked p op.handle_proof 0 (op ∷ rest) (start p) w walked,
    )
