-- ===== src/Tests/Fold.antt =====
-- The fold on a small chain: a phone founds the fleet, adds a laptop, locks and unlocks it, and
-- countersigns its departure.
use fgtw.Base.{All, ◌≢◌, ℕ, ◌≡◌, refl, true, false, List, [], ◌∷◌}
use fgtw.Base.Bytes.{zero32, eqb, le_bytes}
use fgtw.Base.Result.{ok, err}
use fgtw.Pq.Scheme.{mask_base, mask_all, covers, egg_mask}
use fgtw.Pq.Bundle.{mask, pubkey, ed25519_only, ed25519, to_bytes}
use fgtw.Pq.Eggs.{verify_egg, all_ok, verify_eggs}
use fgtw.Fleet.Op.{genesis, FleetOp, kind_byte, domain, plate_known}
use fgtw.Fleet.Signing.{
  frame, bindreq_signing_bytes_plated, departreq_signing_bytes, checkpoint_part, bundle_part,
  plate_part, framed_sigs, consent_part, signing_bytes, sigs_part, chain_hash,
  verify_identity_binding, verify_consent, verify_depart_consent, verify_sigs, consent_window,
}
use fgtw.Fleet.Members.{contains, retain_ne, find_slot, put_slot}
use fgtw.Fleet.Fold.Walk.{FoldState, check_shape, record_plate, signer_locked}
use fgtw.Fleet.Fold.Apply.{
  bundle_of, owner_ok, verify_with, check_authority, apply_genesis, apply_declare, apply_add,
  apply_remove, apply_lock, apply_unlock, apply_checkpoint, apply_kind,
}
use fgtw.Fleet.Fold.Step.{live_mask, finish, fold_step, fold_ops, start, fold_inner}
use fgtw.Fleet.Fold.Trace.{Happens}
use fgtw.Fleet.Fold.Authority.{HasAuthority}
use fgtw.Fleet.Fold.Ratchet.{fold_inner-floor, fold_inner-HasAuthority}
use fgtw.Fleet.Fold.Membership.{Departs, fold_inner-Departs}
use fgtw.Fleet.Fold.Locks.{Frees, fold_inner-Frees}
use fgtw.Fleet.Fold.Invariant.{IsWellFormed, fold_inner-IsWellFormed}
use fgtw.Fleet.Fold.Links.{IsLinked, fold_inner-IsLinked}
use fgtw.Tests.Toy.{toy, phone, laptop, founding, joining, locking, unlocking, leaving}

-- What a run of the fold opens.
unfoldable pub runs : ℕ
unfolding eqb le_bytes mask_base mask_all covers egg_mask mask pubkey ed25519_only ed25519 to_bytes
    verify_egg all_ok verify_eggs kind_byte domain plate_known frame bindreq_signing_bytes_plated
    departreq_signing_bytes checkpoint_part bundle_part plate_part consent_part framed_sigs
    signing_bytes sigs_part chain_hash verify_identity_binding verify_consent verify_depart_consent
    verify_sigs consent_window contains retain_ne find_slot put_slot check_shape record_plate
    bundle_of owner_ok verify_with check_authority apply_genesis apply_declare apply_add
    apply_remove apply_lock apply_unlock apply_checkpoint apply_kind live_mask finish fold_step
    fold_ops start fold_inner
runs = 0

abbrev pub pair_state : FoldState
pair_state = record {
  members = phone ∷ laptop ∷ [];
  floor = 1;
  bundles =
      record { device = laptop; value = record { keys = record { scheme = 0; key = laptop } ∷ [] } }
      ∷ [];
  locked = [];
  plates = [];
  kinds = [];
}

pub pair_folds : fold_inner toy (founding ∷ joining ∷ []) ≡ ok pair_state
unfolding runs
pair_folds = refl

abbrev pub locked_state : FoldState
locked_state = record pair_state { locked = laptop ∷ [] }

abbrev pub phone_state : FoldState
phone_state = record pair_state { members = phone ∷ [] }

abbrev pub pair_chain : List FleetOp
pair_chain = founding ∷ joining ∷ []

abbrev pub locked_chain : List FleetOp
locked_chain = founding ∷ joining ∷ locking ∷ []

abbrev pub whole_chain : List FleetOp
whole_chain = founding ∷ joining ∷ locking ∷ unlocking ∷ leaving ∷ []

pub locked_folds : fold_inner toy locked_chain ≡ ok locked_state
unfolding runs
locked_folds = refl

pub whole_folds : fold_inner toy whole_chain ≡ ok phone_state
unfolding runs
whole_folds = refl

-- The locked laptop signs nothing: not even its own unlock.
self_unlock :
    fold_inner toy (founding ∷ joining ∷ locking ∷ record unlocking { signer_pubkey = laptop } ∷ [])
    ≡ err (signer_locked 3)
unfolding runs
self_unlock = refl

holds_laptop : contains pair_state.members laptop ≡ true
unfolding contains eqb
holds_laptop = refl

lost_laptop : contains phone_state.members laptop ≡ false
unfolding contains eqb
lost_laptop = refl

locks_laptop : contains locked_state.locked laptop ≡ true
unfolding contains eqb
locks_laptop = refl

frees_laptop : contains phone_state.locked laptop ≡ false
unfolding contains eqb
frees_laptop = refl

fold_inner-floor_example :
    (s : FoldState) × (fold_inner toy pair_chain ≡ ok s) × (covers phone_state.floor s.floor ≡ true)
fold_inner-floor_example =
    fold_inner-floor toy founding (joining ∷ []) (locking ∷ unlocking ∷ leaving ∷ []) phone_state
      whole_folds

fold_inner-HasAuthority_example :
    (s : FoldState) × (fold_inner toy locked_chain ≡ ok s) × HasAuthority toy unlocking s
fold_inner-HasAuthority_example =
    fold_inner-HasAuthority toy founding (joining ∷ locking ∷ []) unlocking (leaving ∷ [])
      phone_state whole_folds

fold_inner-Departs_example :
    Happens toy pair_chain (locking ∷ unlocking ∷ leaving ∷ []) (Departs toy laptop)
fold_inner-Departs_example =
    fold_inner-Departs toy laptop founding (joining ∷ []) (locking ∷ unlocking ∷ leaving ∷ [])
      pair_state phone_state pair_folds whole_folds holds_laptop lost_laptop

fold_inner-Frees_example : Happens toy locked_chain (unlocking ∷ leaving ∷ []) (Frees toy laptop)
fold_inner-Frees_example =
    fold_inner-Frees toy laptop founding (joining ∷ locking ∷ []) (unlocking ∷ leaving ∷ [])
      locked_state phone_state locked_folds whole_folds locks_laptop frees_laptop

fold_inner-IsWellFormed_example : IsWellFormed toy locked_state
fold_inner-IsWellFormed_example = fold_inner-IsWellFormed toy locked_chain locked_state locked_folds

fold_inner-IsLinked_example :
    (op : FleetOp) × (rest : List FleetOp) × (locked_chain ≡ op ∷ rest)
    × (op.kind ≡ genesis)
    × All (λ (o : FleetOp). o.kind ≢ genesis) rest
    × IsLinked toy op.handle_proof zero32 (op ∷ rest)
fold_inner-IsLinked_example = fold_inner-IsLinked toy locked_chain locked_state locked_folds
