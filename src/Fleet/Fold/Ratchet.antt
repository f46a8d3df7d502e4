-- ===== src/Fleet/Fold/Ratchet.antt =====
-- The capability floor of src/fleet.rs `fold_inner`, and the authority that an accepted op needs.
use Prim.Native.Nat.{bit_or}
use fgtw.Base.{ℕ, suc, ◌+◌, ◌≡◌, ap, true, List, ◌∷◌, ◌++◌, arith, length}
use fgtw.Base.Bytes.{Bytes}
use fgtw.Base.Bits.{Includes-or_left, Includes-trans, Includes-refl}
use fgtw.Base.Result.{ok}
use fgtw.Primitives.{Primitives}
use fgtw.Pq.Scheme.{covers, mask_all, covers→Includes, Includes→covers}
use fgtw.Fleet.Op.{FleetOp, OpKind, genesis, add, remove, checkpoint, declare, lock, unlock}
use fgtw.Fleet.Fold.Walk.{FoldState, Walk, record_plate}
use fgtw.Fleet.Fold.Apply.{apply_kind}
use fgtw.Fleet.Fold.Step.{finish, fold_step, fold_ops, fold_inner, live_mask}
use fgtw.Fleet.Fold.Inversion.{fold_step-eq-ok}
use fgtw.Fleet.Fold.Effects.{apply_kind-eq-ok}
use fgtw.Fleet.Fold.Authority.{HasAuthority, fold_step-HasAuthority}
use fgtw.Fleet.Fold.Trace.{fold_ops-keeps, fold_ops-cons, fold_inner-append}

-- No kind of op writes the floor: only the end of the round does.
pub apply_kind-floor :
    (p : Primitives) (k : OpKind) (i : ℕ) (op : FleetOp) (w v : Walk)
    → apply_kind p k i op w ≡ ok v
    → v.floor ≡ w.floor
apply_kind-floor p genesis i op w v h =
    ap (λ (s : FoldState). s.floor) (apply_kind-eq-ok p genesis i op w v h).0.result
apply_kind-floor p add i op w v h =
    ap (λ (s : FoldState). s.floor) (apply_kind-eq-ok p add i op w v h).0.result
apply_kind-floor p remove i op w v h =
    ap (λ (s : FoldState). s.floor) (apply_kind-eq-ok p remove i op w v h).0.result
apply_kind-floor p declare i op w v h =
    ground (arith, (apply_kind-eq-ok p declare i op w v h).0.result)
apply_kind-floor p lock i op w v h =
    ap (λ (s : FoldState). s.floor) (apply_kind-eq-ok p lock i op w v h).0.result
apply_kind-floor p unlock i op w v h =
    ap (λ (s : FoldState). s.floor) (apply_kind-eq-ok p unlock i op w v h).0.result
apply_kind-floor p checkpoint i op w v h =
    ap (λ (u : Walk). u.floor) (apply_kind-eq-ok p checkpoint i op w v h).1

fold_step-floor :
    (p : Primitives) (identity : Bytes) (i : ℕ) (op : FleetOp) (w w' : Walk)
    → fold_step p identity i op w ≡ ok w'
    → covers w'.floor w.floor ≡ true
unfolding finish record_plate
fold_step-floor p identity i op w w' h =
    let (shape, authorised, (v, applied, result)) = fold_step-eq-ok p identity i op w w' h in
    let kept : v.floor ≡ w.floor = apply_kind-floor p op.kind i op (record_plate op w) v applied in
    let live = live_mask p v.bundles v.locked (mask_all p) v.members in
    let raised : w'.floor ≡ bit_or v.floor live = ap (λ (u : Walk). u.floor) result in
    rw (raised, kept) (Includes→covers _ _ (Includes-or_left w.floor live))

fold_ops-floor :
    (p : Primitives) (identity : Bytes) (i : ℕ) (ops : List FleetOp) (w u : Walk)
    → fold_ops p identity i ops w ≡ ok u
    → covers u.floor w.floor ≡ true
fold_ops-floor p identity i ops w u h =
    fold_ops-keeps p identity (λ v. covers v.floor w.floor ≡ true)
      (λ i op a b step kept. Includes→covers _ _ (
        Includes-trans b.floor a.floor w.floor
          (covers→Includes _ _ (fold_step-floor p identity i op a b step))
          (covers→Includes _ _ kept)))
      i ops w u h (Includes→covers _ _ (Includes-refl w.floor))

-- A chain that folds folds at each non-empty beginning, and the floor of the whole chain has every
-- scheme of the floor at that point: no op lowers it.
pub fold_inner-floor :
    (p : Primitives) (op : FleetOp) (xs ys : List FleetOp) (t : FoldState)
    → fold_inner p ((op ∷ xs) ++ ys) ≡ ok t
    → (s : FoldState) × (fold_inner p (op ∷ xs) ≡ ok s) × (covers t.floor s.floor ≡ true)
fold_inner-floor p op xs ys t h =
    let (v, w, walked, before, after, result) = fold_inner-append p op xs ys t h in
    (v.state, before, rw (← result) (fold_ops-floor p op.handle_proof _ ys v w after))

-- In a chain that folds, every op after the first has the authority that the chain before it
-- grants its signer.
pub fold_inner-HasAuthority :
    (p : Primitives) (first : FleetOp) (xs : List FleetOp) (op : FleetOp) (ys : List FleetOp)
    (t : FoldState)
    → fold_inner p ((first ∷ xs) ++ op ∷ ys) ≡ ok t
    → (s : FoldState) × (fold_inner p (first ∷ xs) ≡ ok s) × HasAuthority p op s
fold_inner-HasAuthority p first xs op ys t h =
    let (v, w, walked, before, after, result) = fold_inner-append p first xs (op ∷ ys) t h in
    let (u, stepped, rest) =
      fold_ops-cons p first.handle_proof (0 + suc (length xs)) op ys v w after in
    let e : 0 + suc (length xs) ≡ suc (length xs) = omega arith in
    (
      v.state,
      before,
      fold_step-HasAuthority p first.handle_proof (length xs) op v u (rw e at stepped),
    )
