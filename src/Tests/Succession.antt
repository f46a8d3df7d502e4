-- ===== src/Tests/Succession.antt =====
-- A succession from the founding chain of Tests.Toy, vouched for by its phone.
use fgtw.Base.{◌≡◌, refl, false, some, [], ◌∷◌, replicate}
use fgtw.Base.Bytes.{Bytes}
use fgtw.Base.Result.{ok}
use fgtw.Fleet.Signing.{chain_hash}
use fgtw.Fleet.Fold.Walk.{FoldState}
use fgtw.Fleet.Fold.Step.{fold_inner}
use fgtw.Fleet.Query.{genesis_hash, handle_proof}
use fgtw.Fleet.Succession.{SuccessorRecord, succession_signing_bytes, names_unknown, verify_for_pin}
use fgtw.Fleet.Succession.Vouch.{IsVoucher, verify_for_pin-IsVoucher}
use fgtw.Fstate.Merge.{sort_by, insert_by}
use fgtw.Tests.Toy.{toy, phone, founding}
use fgtw.Tests.Fold.{runs}

abbrev pub record_of_phone : SuccessorRecord
record_of_phone = record {
  handle_proof = replicate 32 7;
  new_genesis_hash = replicate 32 4;
  predecessor = founding ∷ [];
  continuity_eggs = record { device_pubkey = phone; scheme = 0; sig = replicate 64 9 } ∷ [];
}

abbrev pub pinned : Bytes
pinned = chain_hash toy founding

succeeds : verify_for_pin toy record_of_phone pinned ≡ ok tt
unfolding runs verify_for_pin genesis_hash handle_proof sort_by insert_by
succeeds = refl

verify_for_pin-IsVoucher_example :
    (pred : FoldState) × (fold_inner toy (founding ∷ []) ≡ ok pred)
    × (genesis_hash toy (founding ∷ []) ≡ some pinned)
    × (handle_proof (founding ∷ []) ≡ some (replicate 32 7))
    × (names_unknown toy record_of_phone.continuity_eggs ≡ false)
    × ((d : Bytes) × IsVoucher toy pred
          (succession_signing_bytes (replicate 32 7) pinned (replicate 32 4))
          record_of_phone.continuity_eggs
          d)
verify_for_pin-IsVoucher_example = verify_for_pin-IsVoucher toy record_of_phone pinned succeeds
