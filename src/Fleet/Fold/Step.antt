-- ===== src/Fleet/Fold/Step.antt =====
-- src/fleet.rs `fold_inner`: the floor, one round of the walk, and the walk over a whole chain.
use Prim.Native.Nat.{bit_or, bit_and}
use fgtw.Base.{ℕ, ◌+◌, Option, none, some, List, [], ◌∷◌, if◌then◌else◌}
use fgtw.Base.Bytes.{Bytes, zero32}
use fgtw.Base.Result.{Result, ok, err, ◌>>=◌, ◌>>◌}
use fgtw.Primitives.{Primitives}
use fgtw.Pq.Scheme.{Mask, mask_base, mask_all}
use fgtw.Pq.Bundle.{KeyBundle, mask}
use fgtw.Fleet.Op.{FleetOp}
use fgtw.Fleet.Signing.{chain_hash}
use fgtw.Fleet.Members.{Slot, contains, find_slot}
use fgtw.Fleet.Fold.Walk.{FoldError, empty, FoldState, Walk, check_shape, record_plate}
use fgtw.Fleet.Fold.Apply.{check_authority, apply_kind}

module _ (p : Primitives) where
  -- The AND, over the members that are not locked, of what each can sign with.
  unfoldable pub slot_mask : Option KeyBundle → Mask
  slot_mask none = mask_base p
  slot_mask (some b) = mask b

  unfoldable pub live_mask : List (Slot KeyBundle) → List Bytes → Mask → List Bytes → Mask
  unfolding slot_mask
  live_mask bundles locked acc [] = acc
  live_mask bundles locked acc (m ∷ ms) =
      live_mask bundles locked
        (if contains locked m then acc else bit_and acc (slot_mask (find_slot m bundles))) ms

  -- The floor is raised, and the op's hash is what the next op must name.
  unfoldable pub finish : FleetOp → Walk → Walk
  finish op w = record w {
    state = record w.state {
      floor = bit_or w.floor (live_mask w.bundles w.locked (mask_all p) w.members);
    };
    expected_prev = chain_hash p op;
  }

  unfoldable pub fold_step : Bytes → ℕ → FleetOp → Walk → Result FoldError Walk
  fold_step identity i op w = do
    check_shape identity w.expected_prev i op
    let w' = record_plate op w
    check_authority p i op w'
    w'' ← apply_kind p op.kind i op w'
    ok (finish op w'')

  unfoldable pub fold_ops : Bytes → ℕ → List FleetOp → Walk → Result FoldError Walk
  fold_ops identity i [] w = ok w
  fold_ops identity i (op ∷ ops) w = do
    w' ← fold_step identity i op w
    fold_ops identity (i + 1) ops w'

  unfoldable pub start : Walk
  start = record {
    state = record {
      members = [];
      floor = mask_base p;
      bundles = [];
      locked = [];
      plates = [];
      kinds = [];
    };
    expected_prev = zero32;
    last_ckpt_k = 0;
  }

  unfoldable pub fold_inner : List FleetOp → Result FoldError FoldState
  fold_inner [] = err empty
  fold_inner (op ∷ ops) = do w ← fold_ops op.handle_proof 0 (op ∷ ops) start; ok w.state
