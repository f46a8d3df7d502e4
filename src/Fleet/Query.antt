-- ===== src/Fleet/Query.antt =====
-- src/fleet.rs `impl MembershipBlob`: what is read off a chain. The blob is its list of ops.
pub mod History
use mathlib.Core.List.{reverse}
use fgtw.Base.{
  ℕ, suc, Bool, true, false, Option, none, some, List, [], ◌∷◌, ◌==◌, take, first, last,
  if◌then◌else◌,
}
use fgtw.Base.Bytes.{Bytes, zero32}
use fgtw.Base.Int.{ℤ, pos, leb_ℤ}
use fgtw.Base.Result.{Result, ok, err, ◌>>=◌, map_ok}
use fgtw.Primitives.{Primitives}
use fgtw.Pq.Scheme.{Mask, mask_base}
use fgtw.Pq.Bundle.{KeyBundle, mask, unwrap_or}
use fgtw.Fleet.Op.{FleetOp, unstated}
use fgtw.Fleet.Signing.{chain_hash}
use fgtw.Fleet.Members.{Slot, contains, find_slot}
use fgtw.Fleet.Fold.Walk.{FoldError, FoldState, is_checkpoint}
use fgtw.Fleet.Fold.Step.{fold_inner}

-- `MembershipBlob { ops }`
abbrev pub MembershipBlob : Type 0
MembershipBlob = List FleetOp

-- `Option::map`
abbrev pub map_some : {A B : Type 0} → (A → B) → Option A → Option B
map_some f none = none
map_some f (some a) = some (f a)

-- `plates.into_iter().filter(|(d, _)| locked.contains(d)).map(|(_, p)| p)`
unfoldable pub plates_of : List Bytes → List (Slot Bytes) → List Bytes
plates_of locked [] = []
plates_of locked (s ∷ ss) =
    let rest = plates_of locked ss in if contains locked s.device then s.value ∷ rest else rest

-- `ops.iter().take_while(|op| op.eagle_time <= t).count()`
unfoldable pub count_upto : ℤ → List FleetOp → ℕ
count_upto t [] = 0
count_upto t (op ∷ ops) = elim (leb_ℤ op.eagle_time t) [ true ↦ suc (count_upto t ops) | false ↦ 0 ]

abbrev pub state_or {ℓ} : {A : Type ℓ} → A → (FoldState → A) → Result FoldError FoldState → A
state_or d f (ok s) = f s
state_or d f (err e) = d

-- `fold().map(|m| m.contains(..)).unwrap_or(default)`
unfoldable pub holds : Result FoldError (List Bytes) → Bool → Bytes → Bool
holds (ok ms) default device = contains ms device
holds (err e) default device = default

module _ (p : Primitives) where
  unfoldable pub fold : MembershipBlob → Result FoldError (List Bytes)
  fold ops = map_ok (λ s. s.members) (fold_inner p ops)

  unfoldable pub locked_out : MembershipBlob → Result FoldError (List Bytes)
  locked_out ops = map_ok (λ s. s.locked) (fold_inner p ops)

  unfoldable pub declared_plate : MembershipBlob → Bytes → Option Bytes
  declared_plate ops device = state_or none (λ s. find_slot device s.plates) (fold_inner p ops)

  unfoldable pub plates : MembershipBlob → Result FoldError (List (Slot Bytes))
  plates ops = map_ok (λ s. s.plates) (fold_inner p ops)

  unfoldable pub locked_plates : MembershipBlob → Result FoldError (List Bytes)
  locked_plates ops = map_ok (λ s. plates_of s.locked s.plates) (fold_inner p ops)

  unfoldable pub declared_plate_kind : MembershipBlob → Bytes → ℕ
  declared_plate_kind ops device =
      unwrap_or unstated (state_or none (λ s. find_slot device s.kinds) (fold_inner p ops))

  unfoldable pub declared_bundle : MembershipBlob → Bytes → Option KeyBundle
  declared_bundle ops device = state_or none (λ s. find_slot device s.bundles) (fold_inner p ops)

  unfoldable pub declared_mask : MembershipBlob → Bytes → Mask
  declared_mask ops device =
      unwrap_or (mask_base p)
        (state_or none (λ s. map_some mask (find_slot device s.bundles)) (fold_inner p ops))

  unfoldable pub fold_full : MembershipBlob → Result FoldError (List Bytes × Mask)
  fold_full ops = map_ok (λ s. (s.members, s.floor)) (fold_inner p ops)

  unfoldable pub scheme_floor : MembershipBlob → Result FoldError Mask
  scheme_floor ops = map_ok (λ t. t.1) (fold_full ops)

  unfoldable pub fold_with_ts : MembershipBlob → Result FoldError (List Bytes × ℤ)
  fold_with_ts ops = do
    members ← fold ops
    ok (members, unwrap_or (pos 0) (map_some (λ (op : FleetOp). op.eagle_time) (last ops)))

  unfoldable pub is_member : MembershipBlob → Bytes → Bool
  is_member ops device = holds (fold ops) false device

  unfoldable pub was_member_at : MembershipBlob → Bytes → ℤ → Bool
  was_member_at ops device t =
      if holds (locked_out ops) true device
      then false
      else let upto = count_upto t ops in
        if upto == 0 then false else holds (fold (take upto ops)) false device

  unfoldable pub head : MembershipBlob → Bytes
  head ops = unwrap_or zero32 (map_some (chain_hash p) (last ops))

  unfoldable pub genesis_hash : MembershipBlob → Option Bytes
  genesis_hash ops = map_some (chain_hash p) (first ops)

-- `handle_proof` and `genesis_handle_proof`
unfoldable pub handle_proof : MembershipBlob → Option Bytes
handle_proof ops = map_some (λ (op : FleetOp). op.handle_proof) (first ops)

unfoldable pub genesis_identity_pubkey : MembershipBlob → Option Bytes
genesis_identity_pubkey ops = map_some (λ (op : FleetOp). op.identity_pubkey) (first ops)

unfoldable pub find_checkpoint : List FleetOp → Option (ℕ × Bytes × ℕ)
find_checkpoint [] = none
find_checkpoint (op ∷ ops) =
    if is_checkpoint op.kind
    then some (op.ckpt_k, op.ckpt_commit, op.ckpt_fanout_epoch)
    else find_checkpoint ops

-- `ops.iter().rev().find(|op| op.kind == OpKind::Checkpoint)`
unfoldable pub latest_checkpoint : MembershipBlob → Option (ℕ × Bytes × ℕ)
unfolding find_checkpoint
latest_checkpoint ops = find_checkpoint (reverse ops)
