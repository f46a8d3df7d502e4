-- ===== src/Fleet/Fold/Walk.antt =====
-- src/fleet.rs `fold_inner`: the state of the walk, the structural checks of an op, and the plates.
use fgtw.Base.{ℕ, Bool, true, false, not, ◌&&◌, ◌||◌, Option, none, some, List, ◌==◌, if◌then◌else◌}
use fgtw.Base.Bytes.{Bytes, zero32, eqb}
use fgtw.Base.Int.{pos, ltb_ℤ, leb_ℤ, eqb_ℤ}
use fgtw.Base.Result.{Result, ◌>>◌, reject}
use fgtw.Pq.Scheme.{Mask}
use fgtw.Pq.Bundle.{KeyBundle, is_empty, is_some}
use fgtw.Fleet.Op.{
  FleetOp, OpKind, genesis, add, remove, checkpoint, plated, is_v4, plate_kind_op, plate_known,
  unstated,
}
use fgtw.Fleet.Signing.{bundle_kind_op, op_time_max}
use fgtw.Fleet.Members.{Slot, put_slot}

pub data FoldError : Type 0 where
  empty not_genesis_first genesis_not_self_signed bad_identity_binding : FoldError
  stray_identity_binding bad_consent consent_stale impossible_time stray_consent : ℕ → FoldError
  stray_checkpoint checkpoint_malformed checkpoint_out_of_sequence stray_bundle : ℕ → FoldError
  stray_plate stray_plate_kind bad_bundle declare_not_self_signed : ℕ → FoldError
  capability_regression below_floor declare_unproven insufficient_eggs : ℕ → FoldError
  bundle_mismatch remove_not_self_signed remove_approver_is_leaver : ℕ → FoldError
  inconsistent_handle_proof broken_chain bad_signature signer_not_member : ℕ → FoldError
  signer_locked lock_malformed add_existing_member remove_non_member : ℕ → FoldError

pub record FoldState : Type 0 where
  pub members : List Bytes
  pub floor : Mask
  pub bundles : List (Slot KeyBundle)
  pub locked : List Bytes
  pub plates : List (Slot Bytes)
  pub kinds : List (Slot ℕ)

-- The loop's variables.
pub record Walk : Type 0 where
  pub state : FoldState
  pub open state use *
  pub expected_prev : Bytes
  pub last_ckpt_k : ℕ

abbrev pub Check : Type 0
Check = Result FoldError (Unit {0})

-- `op.kind != OpKind::Genesis`, and so on.
abbrev pub is_genesis : OpKind → Bool
is_genesis genesis = true
is_genesis _ = false

abbrev pub is_remove : OpKind → Bool
is_remove remove = true
is_remove _ = false

abbrev pub is_checkpoint : OpKind → Bool
is_checkpoint checkpoint = true
is_checkpoint _ = false

abbrev pub consent_kind_op : OpKind → Bool
consent_kind_op add = true
consent_kind_op remove = true
consent_kind_op _ = false

abbrev pub differ : Bool → Bool → Bool
differ true b = not b
differ false b = b

-- The structural checks, up to where the plates are recorded.
unfoldable pub check_shape : Bytes → Bytes → ℕ → FleetOp → Check
check_shape identity expected_prev i op = do
  reject (not (eqb op.handle_proof identity)) (inconsistent_handle_proof i)
  reject (not (eqb op.prev_hash expected_prev)) (broken_chain i)
  reject (ltb_ℤ op.eagle_time (pos 0) || leb_ℤ (pos op_time_max) op.eagle_time) (impossible_time i)
  reject
      (not (is_genesis op.kind)
        && (not (eqb op.identity_pubkey zero32) || not (is_empty op.identity_sig)))
      (stray_identity_binding i)
  reject
      (not (consent_kind_op op.kind)
        && (not (eqb_ℤ op.consent_t (pos 0)) || not (is_empty op.consent)))
      (stray_consent i)
  reject
      (is_remove op.kind && differ (not (eqb_ℤ op.consent_t (pos 0))) (not (is_empty op.consent)))
      (stray_consent i)
  reject
      (not (is_checkpoint op.kind)
        && (not (op.ckpt_k == 0)
            || (not (eqb op.ckpt_commit zero32) || not (op.ckpt_fanout_epoch == 0))))
      (stray_checkpoint i)
  reject (not (bundle_kind_op op.kind) && is_some op.bundle) (stray_bundle i)
  reject (is_some op.plate && (not (plate_kind_op op.kind) || not (plated op.version)))
      (stray_plate i)
  reject
      (not (op.plate_kind == unstated)
        && (not (plate_kind_op op.kind)
            || (not (is_v4 op.version) || not (plate_known op.plate_kind))))
      (stray_plate_kind i)

unfoldable pub note_plate : Option Bytes → Bytes → List (Slot Bytes) → List (Slot Bytes)
note_plate none device plates = plates
note_plate (some p) device plates = put_slot device p plates

unfoldable pub note_kind : ℕ → Bytes → List (Slot ℕ) → List (Slot ℕ)
note_kind k device kinds = if k == unstated then kinds else put_slot device k kinds

unfoldable pub record_plate : FleetOp → Walk → Walk
unfolding note_plate note_kind
record_plate op w = record w {
  state = record w.state {
    plates = note_plate op.plate op.device_pubkey w.plates;
    kinds = note_kind op.plate_kind op.device_pubkey w.kinds;
  };
}
