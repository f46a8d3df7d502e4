-- ===== src/Fleet/Fold/Apply.antt =====
-- src/fleet.rs `fold_inner`: the authority of an op, and what each kind of op does to the state.
use Prim.Native.Nat.{bit_or}
use fgtw.Base.{
  ℕ, ◌+◌, Bool, true, not, ◌&&◌, ◌||◌, Option, none, some, List, [], ◌∷◌, ◌++◌, ◌==◌, ltb, length,
}
use fgtw.Base.Bytes.{Bytes, zero32, eqb}
use fgtw.Base.Int.{abs_diff}
use fgtw.Base.Result.{Result, ok, err, ◌>>=◌, ◌>>◌, reject}
use fgtw.Primitives.{Primitives, Egg}
use fgtw.Pq.Scheme.{covers, egg_mask}
use fgtw.Pq.Bundle.{KeyBundle, is_empty, ed25519, mask}
use fgtw.Fleet.Op.{FleetOp, OpKind, genesis, add, remove, checkpoint, declare, lock, unlock}
use fgtw.Fleet.Signing.{
  consent_window, verify_identity_binding, verify_consent, verify_depart_consent, verify_sigs,
  bundle_or_ed,
}
use fgtw.Fleet.Members.{Slot, contains, retain_ne, find_slot, put_slot, push_slot}
use fgtw.Fleet.Fold.Walk.{
  FoldError, not_genesis_first, genesis_not_self_signed, bad_identity_binding, bad_consent,
  consent_stale, checkpoint_malformed, checkpoint_out_of_sequence, bad_bundle,
  declare_not_self_signed, capability_regression, below_floor, declare_unproven, insufficient_eggs,
  bundle_mismatch, remove_not_self_signed, remove_approver_is_leaver, bad_signature,
  signer_not_member, signer_locked, lock_malformed, add_existing_member, remove_non_member,
  FoldState, Walk, Check,
}

module _ (p : Primitives) where
  -- What a device last declared, or Ed25519 alone.
  unfoldable pub bundle_of : Bytes → List (Slot KeyBundle) → KeyBundle
  bundle_of device bundles = bundle_or_ed p device (find_slot device bundles)

  unfoldable pub owner_ok : Option KeyBundle → Bytes → Bool
  owner_ok none device = true
  owner_ok (some b) device = eqb (ed25519 p b) device

  -- A declare is checked under the bundle it carries, any other op under its signer's.
  unfoldable pub verify_with : OpKind → Option KeyBundle → Bytes → List (Slot KeyBundle) → KeyBundle
  verify_with declare (some b) signer bundles = b
  verify_with _ _ signer bundles = bundle_of signer bundles

  -- Whose bundle it is, the lock, the floor as the required set, and the signatures.
  unfoldable pub check_authority : ℕ → FleetOp → Walk → Check
  check_authority i op w = do
    reject (not (owner_ok op.bundle op.device_pubkey)) (bundle_mismatch i)
    reject (contains w.locked op.signer_pubkey) (signer_locked i)
    reject (not (covers (egg_mask op.sigs) w.floor)) (insufficient_eggs i)
    reject (not (verify_sigs p op (verify_with op.kind op.bundle op.signer_pubkey w.bundles)))
        (bad_signature i)

  unfoldable pub apply_genesis : ℕ → FleetOp → FoldState → Result FoldError FoldState
  apply_genesis i op s = do
    reject (not (i == 0) || not (is_empty s.members)) not_genesis_first
    reject (not (eqb op.signer_pubkey op.device_pubkey)) genesis_not_self_signed
    reject (eqb op.identity_pubkey zero32) bad_identity_binding
    reject (not (is_empty op.identity_sig) && not (verify_identity_binding p op))
        bad_identity_binding
    ok (record s { members = s.members ++ op.device_pubkey ∷ [] })

  -- The monotonicity check of a declare, and the slot it writes.
  unfoldable pub apply_bundle : ℕ → Bytes → KeyBundle → FoldState → Result FoldError FoldState
  apply_bundle i device b s = elim (find_slot device s.bundles) [
    | none ↦ ok (record s { bundles = push_slot device b s.bundles })
    | some old ↦
        reject (not (covers (mask b) (mask old))) (capability_regression i)
        >> ok (record s { bundles = put_slot device b s.bundles })
  ]

  unfoldable pub declare_with :
      ℕ → FleetOp → Option KeyBundle → FoldState → Result FoldError FoldState
  unfolding apply_bundle
  declare_with i op none s = err (bad_bundle i)
  declare_with i op (some b) s = do
    reject (not (covers (egg_mask op.sigs) (mask b))) (declare_unproven i)
    apply_bundle i op.device_pubkey b s

  unfoldable pub apply_declare : ℕ → FleetOp → FoldState → Result FoldError FoldState
  unfolding declare_with
  apply_declare i op s = do
    reject (not (eqb op.signer_pubkey op.device_pubkey)) (declare_not_self_signed i)
    reject (not (contains s.members op.device_pubkey)) (signer_not_member i)
    declare_with i op op.bundle s

  unfoldable pub apply_add : ℕ → FleetOp → FoldState → Result FoldError FoldState
  apply_add i op s = do
    reject (not (contains s.members op.signer_pubkey)) (signer_not_member i)
    reject (contains s.members op.device_pubkey) (add_existing_member i)
    let joined = bundle_or_ed p op.device_pubkey op.bundle
    reject (not (covers (mask joined) s.floor)) (below_floor i)
    reject (not (verify_consent p op joined (bit_or (mask joined) s.floor))) (bad_consent i)
    reject (ltb (consent_window p) (abs_diff op.eagle_time op.consent_t)) (consent_stale i)
    ok (record s {
      members = s.members ++ op.device_pubkey ∷ [];
      bundles = push_slot op.device_pubkey joined s.bundles;
    })

  -- A departure with no consent is the device's own; a consented one is countersigned by another.
  unfoldable pub check_leave : List Egg → ℕ → FleetOp → FoldState → Check
  check_leave [] i op s =
      reject (not (eqb op.signer_pubkey op.device_pubkey)) (remove_not_self_signed i)
  check_leave (e ∷ es) i op s = do
    reject (eqb op.signer_pubkey op.device_pubkey) (remove_approver_is_leaver i)
    reject (not (verify_depart_consent p op (bundle_of op.device_pubkey s.bundles) s.floor))
        (bad_consent i)
    reject (ltb (consent_window p) (abs_diff op.eagle_time op.consent_t)) (consent_stale i)

  unfoldable pub apply_remove : ℕ → FleetOp → FoldState → Result FoldError FoldState
  unfolding check_leave
  apply_remove i op s = do
    reject (not (contains s.members op.signer_pubkey)) (signer_not_member i)
    check_leave op.consent i op s
    let rest = retain_ne op.device_pubkey s.members
    reject (length rest == length s.members) (remove_non_member i)
    ok (record s { members = rest; locked = retain_ne op.device_pubkey s.locked })

  unfoldable pub apply_lock : ℕ → FleetOp → FoldState → Result FoldError FoldState
  apply_lock i op s = do
    reject (not (contains s.members op.signer_pubkey)) (signer_not_member i)
    reject
        (not (contains s.members op.device_pubkey)
          || (eqb op.device_pubkey op.signer_pubkey || contains s.locked op.device_pubkey))
        (lock_malformed i)
    ok (record s { locked = s.locked ++ op.device_pubkey ∷ [] })

  unfoldable pub apply_unlock : ℕ → FleetOp → FoldState → Result FoldError FoldState
  apply_unlock i op s = do
    reject (not (contains s.members op.signer_pubkey)) (signer_not_member i)
    let rest = retain_ne op.device_pubkey s.locked
    reject (length rest == length s.locked) (lock_malformed i)
    ok (record s { locked = rest })

  unfoldable pub apply_checkpoint : ℕ → ℕ → FleetOp → FoldState → Check
  apply_checkpoint last_k i op s = do
    reject (not (contains s.members op.signer_pubkey)) (signer_not_member i)
    reject
        (op.ckpt_k == 0
          || (eqb op.ckpt_commit zero32 || not (eqb op.device_pubkey op.signer_pubkey)))
        (checkpoint_malformed i)
    reject (not (op.ckpt_k == last_k + 1)) (checkpoint_out_of_sequence i)

  -- `match op.kind`
  unfoldable pub apply_kind : OpKind → ℕ → FleetOp → Walk → Result FoldError Walk
  apply_kind genesis i op w = do s ← apply_genesis i op w.state; ok (record w { state = s })
  apply_kind declare i op w = do s ← apply_declare i op w.state; ok (record w { state = s })
  apply_kind add i op w = do s ← apply_add i op w.state; ok (record w { state = s })
  apply_kind remove i op w = do s ← apply_remove i op w.state; ok (record w { state = s })
  apply_kind lock i op w = do s ← apply_lock i op w.state; ok (record w { state = s })
  apply_kind unlock i op w = do s ← apply_unlock i op w.state; ok (record w { state = s })
  apply_kind checkpoint i op w = do
    apply_checkpoint w.last_ckpt_k i op w.state
    ok (record w { last_ckpt_k = op.ckpt_k })
