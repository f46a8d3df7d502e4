-- ===== src/Tests/Chains.antt =====
-- Chains of the phone and the laptop under the accessors: checkpoints, a device that comes back,
-- membership at a past time, and the adoption of a longer chain.
use fgtw.Base.{◌≡◌, refl, true, false, some, List, [], ◌∷◌, ◌++◌, length, replicate, drop}
use fgtw.Base.Bytes.{zero32, eqb}
use fgtw.Base.Int.{pos}
use fgtw.Base.Result.{ok}
use fgtw.Pq.Bundle.{KeyBundle}
use fgtw.Fleet.Op.{FleetOp, add, remove, checkpoint}
use fgtw.Fleet.Signing.{chain_hash}
use fgtw.Fleet.Members.{find_slot}
use fgtw.Fleet.Query.{
  MembershipBlob, was_member_at, is_member, holds, locked_out, fold, count_upto, declared_bundle,
  latest_checkpoint, genesis_hash,
}
use fgtw.Fleet.Query.History.{StampedUpto, StartsAfter, was_member_at-split}
use fgtw.Fleet.Fold.Walk.{FoldState}
use fgtw.Fleet.Fold.Step.{fold_inner}
use fgtw.Fleet.Fold.Epochs.{epochs, IsConsecutive, number_or, fold_inner-IsConsecutive}
use fgtw.Fleet.Fold.Rejoin.{declared_bundle-rejoin}
use fgtw.Fleet.Adoption.Verdict.{adoption, extended}
use fgtw.Fleet.Adoption.Laws.{adoption-lands, adoption-append}
use fgtw.Tests.Toy.{toy, laptop, egg, founding, joining, locking, about_laptop}
use fgtw.Tests.Fold.{runs, pair_chain, pair_state, phone_state, locked_chain, whole_chain}

abbrev marking : FleetOp
marking = record founding {
  prev_hash = chain_hash toy joining;
  kind = checkpoint;
  eagle_time = pos 300;
  identity_pubkey = zero32;
  ckpt_k = 1;
  ckpt_commit = replicate 32 5;
  ckpt_fanout_epoch = 3;
}

abbrev marked_chain : List FleetOp
marked_chain = founding ∷ joining ∷ marking ∷ []

marked_folds : fold_inner toy marked_chain ≡ ok pair_state
unfolding runs
marked_folds = refl

fold_inner-IsConsecutive_example :
    IsConsecutive 0 (epochs marked_chain)
    × (number_or 0 (latest_checkpoint marked_chain) ≡ length (epochs marked_chain))
fold_inner-IsConsecutive_example = fold_inner-IsConsecutive toy marked_chain pair_state marked_folds

-- The laptop leaves and comes back with a second key.
abbrev departing : FleetOp
departing = record (about_laptop remove joining 300) { consent_t = pos 290; consent = egg ∷ [] }

abbrev two_keys : KeyBundle
two_keys = record {
  keys = record { scheme = 0; key = laptop } ∷ record { scheme = 1; key = [] } ∷ [];
}

abbrev one_key : KeyBundle
one_key = record { keys = record { scheme = 0; key = laptop } ∷ [] }

abbrev rejoining : FleetOp
rejoining = record (about_laptop add departing 400) {
  consent_t = pos 390;
  consent = egg ∷ record { scheme = 1; sig = [] } ∷ [];
  bundle = some two_keys;
}

departed_folds : fold_inner toy (founding ∷ joining ∷ departing ∷ []) ≡ ok phone_state
unfolding runs
departed_folds = refl

abbrev rejoined_state : FoldState
rejoined_state = record pair_state {
  bundles =
      record { device = laptop; value = one_key }
      ∷ record { device = laptop; value = two_keys }
      ∷ [];
}

rejoined_folds :
    fold_inner toy (founding ∷ joining ∷ departing ∷ rejoining ∷ []) ≡ ok rejoined_state
unfolding runs
rejoined_folds = refl

holds_one_key : declared_bundle toy (founding ∷ joining ∷ departing ∷ []) laptop ≡ some one_key
unfolding declared_bundle find_slot eqb
holds_one_key = rw departed_folds refl

declared_bundle-rejoin_example :
    declared_bundle toy (founding ∷ joining ∷ departing ∷ rejoining ∷ []) laptop ≡ some one_key
declared_bundle-rejoin_example =
    declared_bundle-rejoin toy founding (joining ∷ departing ∷ []) rejoining phone_state
      rejoined_state one_key departed_folds rejoined_folds refl holds_one_key

-- The laptop was a member between its joining and its departure.
was_there : was_member_at toy whole_chain laptop (pos 250) ≡ true
unfolding runs was_member_at holds locked_out fold count_upto
was_there = refl

was_member_at-split_example :
    (before : MembershipBlob) × (after : MembershipBlob) × (whole_chain ≡ before ++ after)
    × StampedUpto (pos 250) before
    × StartsAfter (pos 250) after
    × (is_member toy before laptop ≡ true)
    × (holds (locked_out toy whole_chain) true laptop ≡ false)
was_member_at-split_example = was_member_at-split toy whole_chain laptop (pos 250) was_there

longer : adoption toy locked_chain (some pair_chain) ≡ extended
longer = adoption-append toy founding (joining ∷ []) (locking ∷ [])

adoption-lands_example :
    (locked_chain ≡ pair_chain ++ drop (length pair_chain) locked_chain)
    × (genesis_hash toy locked_chain ≡ genesis_hash toy pair_chain)
adoption-lands_example = adoption-lands toy locked_chain pair_chain (rw longer refl)
