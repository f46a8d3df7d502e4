-- ===== src/Tests/Build.antt =====
-- The builders with a signer that answers with one Ed25519 egg.
use fgtw.Base.{◌≡◌, ◌≢◌, refl, ap, true, false, some, none, [], ◌∷◌, ◌++◌, replicate, arith}
use fgtw.Base.Bytes.{Bytes, zero32, eqb}
use fgtw.Base.Int.{pos}
use fgtw.Base.Result.{ok}
use fgtw.Pq.Scheme.{covers, egg_mask, mask_base}
use fgtw.Pq.Bundle.{ed25519_only, KeyBundle}
use fgtw.Fleet.Op.{FleetOp, unstated}
use fgtw.Fleet.Signing.{verify_sigs, sigs_ok}
use fgtw.Fleet.Members.{contains}
use fgtw.Fleet.Query.{MembershipBlob, declared_mask}
use fgtw.Fleet.Fold.Walk.{FoldState}
use fgtw.Fleet.Fold.Apply.{bundle_of}
use fgtw.Fleet.Fold.Step.{fold_inner}
use fgtw.Fleet.Build.Signer.{FleetSigner}
use fgtw.Fleet.Build.Ops.{genesis_v2, lock_device, add_with}
use fgtw.Fleet.Build.Append.{CanSign}
use fgtw.Fleet.Build.Found.{genesis_v2-folds}
use fgtw.Fleet.Build.Lock.{lock_device-folds}
use fgtw.Fleet.Build.Join.{CanJoin, add_with-folds}
use fgtw.Tests.Toy.{toy, phone, laptop, egg, founding, joining}
use fgtw.Tests.Fold.{runs, pair_chain, pair_state, pair_folds}

abbrev phone_signer : FleetSigner
phone_signer = record { public = phone; eggs = λ msg m. egg ∷ []; bundle = none }

phone_signs : (b : KeyBundle) (op : FleetOp) → op.sigs ≡ egg ∷ [] → verify_sigs toy op b ≡ true
unfolding verify_sigs sigs_ok
phone_signs b op h = rw h refl

phone_full : covers 1 1 ≡ true
unfolding covers
phone_full = refl

phone_can : (b : KeyBundle) → CanSign toy phone_signer b 1
unfolding covers egg_mask
phone_can b = record { signs = λ op e h. phone_signs b op h; full = λ msg. refl }

key_stated : replicate 32 8 ≢ zero32
unfolding eqb
key_stated h = let e : false ≡ true = ap (λ b. eqb b zero32) h in cc

genesis_v2-folds_example :
    (t : FoldState) × (fold_inner toy
        (genesis_v2 toy phone_signer (replicate 32 7) (replicate 32 8) (pos 100))
      ≡ ok t)
    × (t.members ≡ phone ∷ [])
    × (t.locked ≡ [])
    × (covers t.floor (mask_base toy) ≡ true)
genesis_v2-folds_example =
    genesis_v2-folds toy phone_signer (replicate 32 7) (replicate 32 8) 100
      (unfold mask_base in phone_can (ed25519_only toy phone)) key_stated (omega arith)

base_mask : declared_mask toy pair_chain phone ≡ 1
unfolding runs declared_mask
base_mask = refl

covers_one : covers (declared_mask toy pair_chain phone) pair_state.floor ≡ true
covers_one = rw base_mask phone_full

holds_phone : contains pair_state.members phone ≡ true
unfolding runs
holds_phone = refl

holds_other : contains pair_state.members laptop ≡ true
unfolding runs
holds_other = refl

two_devices : laptop ≢ phone
unfolding eqb
two_devices h = let e : false ≡ true = ap (λ b. eqb b phone) h in cc

lock_device-folds_example :
    (chain : MembershipBlob) × (t : FoldState) × (lock_device toy pair_chain phone_signer laptop
        (pos 300)
      ≡ some chain)
    × (fold_inner toy chain ≡ ok t)
    × (t.members ≡ pair_state.members)
    × (t.locked ≡ pair_state.locked ++ laptop ∷ [])
lock_device-folds_example =
    lock_device-folds toy founding (joining ∷ []) pair_state phone_signer laptop 300 pair_folds
      (rw base_mask (phone_can (bundle_of toy phone pair_state.bundles))) covers_one holds_phone
      (unfold contains in refl) holds_other (unfold contains in refl) two_devices (omega arith)

abbrev tablet : Bytes
tablet = replicate 32 3

tablet_joins :
    CanJoin toy pair_state (replicate 32 7) tablet 300 (pos 290) (egg ∷ []) none none unstated
unfolding runs
tablet_joins = record {
  fresh = refl;
  owned = refl;
  capable = refl;
  consented = refl;
  timely = omega arith;
  known = refl;
}

add_with-folds_example :
    (t : FoldState) × (fold_inner toy (
        add_with toy pair_chain phone_signer tablet
          (pos 300)
          (pos 290)
          (egg ∷ [])
          none
          none
          unstated)
      ≡ ok t)
    × (t.members ≡ pair_state.members ++ tablet ∷ [])
    × (t.locked ≡ pair_state.locked)
add_with-folds_example =
    add_with-folds toy founding (joining ∷ []) pair_state phone_signer tablet 300 (pos 290)
      (egg ∷ []) none none unstated pair_folds
      (rw base_mask (phone_can (bundle_of toy phone pair_state.bundles))) covers_one holds_phone
      (unfold contains in refl) tablet_joins (omega arith)
