-- ===== src/Fleet/Fold/Rejoin.antt =====
-- What bundle a chain that folds holds for a device that comes back (src/fleet.rs).
use fgtw.Base.{ℕ, ◌+◌, ◌≡◌, sym, ap, ◌∙◌, some, List, [], ◌∷◌, ◌++◌, arith, length}
use fgtw.Base.Bytes.{Bytes}
use fgtw.Base.Result.{ok}
use fgtw.Primitives.{Primitives}
use fgtw.Pq.Bundle.{KeyBundle}
use fgtw.Fleet.Op.{FleetOp, add}
use fgtw.Fleet.Members.{find_slot, find_slot-push_slot}
use fgtw.Fleet.Query.{declared_bundle}
use fgtw.Fleet.Fold.Walk.{FoldState, Walk, record_plate}
use fgtw.Fleet.Fold.Apply.{apply_kind}
use fgtw.Fleet.Fold.Step.{finish, fold_step, fold_ops, fold_inner}
use fgtw.Fleet.Fold.Inversion.{fold_step-eq-ok}
use fgtw.Fleet.Fold.Effects.{apply_kind-eq-ok}
use fgtw.Fleet.Fold.Trace.{fold_ops-cons, fold_inner-append}

fold_step-rejoin :
    (p : Primitives) (identity : Bytes) (i : ℕ) (op : FleetOp) (w w' : Walk) (old : KeyBundle)
    → fold_step p identity i op w ≡ ok w'
    → op.kind ≡ add
    → find_slot op.device_pubkey w.bundles ≡ some old
    → find_slot op.device_pubkey w'.bundles ≡ some old
unfolding finish record_plate
fold_step-rejoin p identity i op w w' old h is_add found =
    let (shape, authorised, (v, applied, result)) = fold_step-eq-ok p identity i op w w' h in
    let as_add : apply_kind p add i op (record_plate op w) ≡ ok v =
      ap (λ k. apply_kind p k i op (record_plate op w)) (sym is_add) ∙ applied in
    let facts = (apply_kind-eq-ok p add i op (record_plate op w) v as_add).0 in
    let bundles : w'.bundles ≡ v.bundles = ap (λ (u : Walk). u.bundles) result in
    let pushed = ap (λ (s : FoldState). s.bundles) facts.result in
    rw (bundles, pushed, find_slot-push_slot op.device_pubkey op.device_pubkey _ w.bundles, found)

-- Where a chain holds a bundle for a device that is not a member, an add that brings the device
-- back does not replace it, whatever bundle the device joined with: the chain holds the old one.
pub declared_bundle-rejoin :
    (p : Primitives) (first : FleetOp) (xs : List FleetOp) (op : FleetOp) (s t : FoldState)
    (old : KeyBundle)
    → fold_inner p (first ∷ xs) ≡ ok s
    → fold_inner p ((first ∷ xs) ++ op ∷ []) ≡ ok t
    → op.kind ≡ add
    → declared_bundle p (first ∷ xs) op.device_pubkey ≡ some old
    → declared_bundle p ((first ∷ xs) ++ op ∷ []) op.device_pubkey ≡ some old
unfolding declared_bundle fold_ops
declared_bundle-rejoin p first xs op s t old e h is_add found =
    let (v, w, walked, before, after, result) = fold_inner-append p first xs (op ∷ []) t h in
    let (u, stepped, rest) =
      fold_ops-cons p first.handle_proof (0 + length (first ∷ xs)) op [] v w after in
    let held : find_slot op.device_pubkey v.bundles ≡ some old = rw before at found in
    let kept = fold_step-rejoin p first.handle_proof _ op v u old stepped is_add held in
    let same : u ≡ w = ground arith in rw h (rw (← result, ← same) kept)
