-- ===== src/Fleet/Fold/Empty.antt =====
-- src/fleet.rs `FoldError::Empty` is the error of the chain with no ops, and of no other.
use fgtw.Base.{ℕ, ◌+◌, ◌≢◌, Bool, true, false, List, [], ◌∷◌, arith}
use fgtw.Base.{not, ◌&&◌, ◌||◌, ◌==◌}
use fgtw.Base.Bytes.{Bytes, zero32, eqb}
use fgtw.Base.Int.{pos, ltb_ℤ, leb_ℤ, eqb_ℤ}
use fgtw.Pq.Bundle.{is_empty, is_some}
use fgtw.Fleet.Op.{plated, is_v4, plate_kind_op, plate_known, unstated}
use fgtw.Fleet.Signing.{bundle_kind_op, op_time_max}
use fgtw.Fleet.Fold.Walk.{is_genesis, is_remove, is_checkpoint, consent_kind_op, differ}
use fgtw.Base.Result.{Result, ok, err, ◌>>=◌, ◌>>◌, reject}
use fgtw.Primitives.{Primitives}
use fgtw.Fleet.Op.{FleetOp, OpKind, genesis, add, remove, checkpoint, declare, lock, unlock}
use fgtw.Fleet.Fold.Walk.{
  FoldError, empty, inconsistent_handle_proof, broken_chain, impossible_time,
  stray_identity_binding, stray_consent, stray_checkpoint, stray_bundle, stray_plate,
  stray_plate_kind, Walk, Check, check_shape, record_plate,
}
use fgtw.Fleet.Fold.Apply.{
  check_authority, apply_genesis, apply_declare, declare_with, apply_bundle, apply_add, check_leave,
  apply_remove, apply_lock, apply_unlock, apply_checkpoint, apply_kind,
}
use fgtw.Fleet.Fold.Step.{fold_step, fold_ops, fold_inner, start}

bind-nonempty :
    {A B : Type 0} (r : Result FoldError A) (f : A → Result FoldError B)
    → r ≢ err empty
    → ((a : A) → f a ≢ err empty)
    → (r >>= f) ≢ err empty
bind-nonempty (ok a) f h k e = k a e
bind-nonempty (err why) f h k e = h (ground arith)

reject-nonempty : (c : Bool) (why : FoldError) → why ≢ empty → reject c why ≢ err empty
reject-nonempty true why h e = h (ground arith)
reject-nonempty false why h e = cc

then-nonempty :
    (c : Bool) (why : FoldError) (k : Check)
    → why ≢ empty
    → k ≢ err empty
    → (reject c why >> k) ≢ err empty
then-nonempty c why k h rest =
    bind-nonempty (reject c why) (λ _. k) (reject-nonempty c why h) (λ _. rest)

check_shape-nonempty :
    (identity prev : Bytes) (i : ℕ) (op : FleetOp) → check_shape identity prev i op ≢ err empty
unfolding check_shape
check_shape-nonempty identity prev i op =
    then-nonempty (not (eqb op.handle_proof identity)) (inconsistent_handle_proof i) _ (λ e. cc)
      (then-nonempty (not (eqb op.prev_hash prev)) (broken_chain i) _ (λ e. cc)
        (then-nonempty (ltb_ℤ op.eagle_time (pos 0) || leb_ℤ (pos op_time_max) op.eagle_time)
          (impossible_time i) _ (λ e. cc)
          (then-nonempty
            (not (is_genesis op.kind)
              && (not (eqb op.identity_pubkey zero32) || not (is_empty op.identity_sig)))
            (stray_identity_binding i) _ (λ e. cc)
            (then-nonempty
              (not (consent_kind_op op.kind)
                && (not (eqb_ℤ op.consent_t (pos 0)) || not (is_empty op.consent)))
              (stray_consent i) _ (λ e. cc)
              (then-nonempty
                (is_remove op.kind
                  && differ (not (eqb_ℤ op.consent_t (pos 0))) (not (is_empty op.consent)))
                (stray_consent i) _ (λ e. cc)
                (then-nonempty
                  (not (is_checkpoint op.kind)
                    && (not (op.ckpt_k == 0)
                        || (not (eqb op.ckpt_commit zero32) || not (op.ckpt_fanout_epoch == 0))))
                  (stray_checkpoint i) _ (λ e. cc)
                  (then-nonempty (not (bundle_kind_op op.kind) && is_some op.bundle)
                    (stray_bundle i) _ (λ e. cc)
                    (then-nonempty
                      (is_some op.plate && (not (plate_kind_op op.kind) || not (plated op.version)))
                      (stray_plate i) _ (λ e. cc)
                      (reject-nonempty
                        (not (op.plate_kind == unstated)
                          && (not (plate_kind_op op.kind)
                              || (not (is_v4 op.version) || not (plate_known op.plate_kind))))
                        (stray_plate_kind i) (λ e. cc))))))))))

module _ (p : Primitives) where
  check_authority-nonempty :
      (i : ℕ) (op : FleetOp) (w : Walk) → check_authority p i op w ≢ err empty
  unfolding check_authority
  check_authority-nonempty i op w h = ground arith

  apply_kind-nonempty :
      (k : OpKind) (i : ℕ) (op : FleetOp) (w : Walk) → apply_kind p k i op w ≢ err empty
  unfolding apply_kind apply_genesis apply_declare declare_with apply_bundle apply_add check_leave
      apply_remove apply_lock apply_unlock apply_checkpoint
  apply_kind-nonempty genesis i op w h = ground arith
  apply_kind-nonempty add i op w h = ground arith
  apply_kind-nonempty remove i op w h = ground arith
  apply_kind-nonempty checkpoint i op w h = ground arith
  apply_kind-nonempty declare i op w h = ground arith
  apply_kind-nonempty lock i op w h = ground arith
  apply_kind-nonempty unlock i op w h = ground arith

  fold_step-nonempty :
      (identity : Bytes) (i : ℕ) (op : FleetOp) (w : Walk) → fold_step p identity i op w ≢ err empty
  unfolding fold_step
  fold_step-nonempty identity i op w h = ground (
    arith,
    check_shape-nonempty identity w.expected_prev i op,
    check_authority-nonempty i op (record_plate op w),
    apply_kind-nonempty op.kind i op (record_plate op w),
  )

  fold_ops-nonempty :
      (identity : Bytes) (i : ℕ) (ops : List FleetOp) (w : Walk)
      → fold_ops p identity i ops w ≢ err empty
  unfolding fold_ops
  fold_ops-nonempty identity i [] w h = ground arith
  fold_ops-nonempty identity i (op ∷ ops) w h =
      bind-nonempty (fold_step p identity i op w) (fold_ops p identity (i + 1) ops)
        (fold_step-nonempty identity i op w) (λ v. fold_ops-nonempty identity (i + 1) ops v) h

  pub fold_inner-nonempty :
      (op : FleetOp) (ops : List FleetOp) → fold_inner p (op ∷ ops) ≢ err empty
  unfolding fold_inner
  fold_inner-nonempty op ops h =
      ground (arith, fold_ops-nonempty op.handle_proof 0 (op ∷ ops) (start p))
