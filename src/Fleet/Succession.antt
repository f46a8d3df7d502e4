-- ===== src/Fleet/Succession.antt =====
-- src/fleet.rs `SuccessorRecord`: the proof that a new chain succeeds one that a contact has pinned.
pub mod Vouch
use Prim.Native.Nat.{min}
use fgtw.Base.{
  ℕ, Bool, true, false, not, ◌||◌, Option, none, some, List, [], ◌∷◌, ◌++◌, map, if◌then◌else◌,
}
use fgtw.Base.Bytes.{Bytes, eqb}
use fgtw.Base.Result.{Result, ok, err, ◌>>=◌, ◌>>◌, reject, ok_or}
use fgtw.Base.Text.{codes}
use fgtw.Primitives.{Primitives, Egg}
use fgtw.Pq.Scheme.{bit, covers, mask_all}
use fgtw.Pq.Bundle.{KeyBundle, ed25519_only, unwrap_or}
use fgtw.Pq.Eggs.{verify_eggs}
use fgtw.Fleet.Members.{contains, find_slot}
use fgtw.Fleet.Fold.Walk.{FoldError, FoldState}
use fgtw.Fleet.Fold.Step.{fold_inner}
use fgtw.Fleet.Query.{MembershipBlob, genesis_hash, handle_proof, declared_mask}
use fgtw.Fleet.Build.Signer.{FleetSigner}
use fgtw.Fstate.Merge.{sort_by}

pub record ContinuityEgg : Type 0 where
  pub device_pubkey : Bytes
  pub scheme : ℕ
  pub sig : Bytes

pub record SuccessorRecord : Type 0 where
  pub handle_proof : Bytes
  pub new_genesis_hash : Bytes
  pub predecessor : MembershipBlob
  pub continuity_eggs : List ContinuityEgg

-- The messages of `new` and `verify_for_pin`.
pub data SuccessionError : Type 0 where
  predecessor_invalid : FoldError → SuccessionError
  no_genesis other_pin other_handle unknown_scheme no_vouch : SuccessionError

unfoldable pub succession_signing_bytes : Bytes → Bytes → Bytes → Bytes
succession_signing_bytes handle_proof old_genesis_hash new_genesis_hash =
    codes "PHOTON_SUCCESSION_v1" ++ (handle_proof ++ (old_genesis_hash ++ new_genesis_hash))

-- The eggs of one voucher.
unfoldable pub continuity_eggs_of : Bytes → List Egg → List ContinuityEgg
continuity_eggs_of device [] = []
continuity_eggs_of device (e ∷ es) =
    record { device_pubkey = device; scheme = e.scheme; sig = e.sig } ∷ continuity_eggs_of device es

-- `filter(|e| e.device_pubkey == *d).map(..)`
unfoldable pub eggs_by : Bytes → List ContinuityEgg → List Egg
eggs_by d [] = []
eggs_by d (e ∷ es) =
    let rest = eggs_by d es in
    if eqb e.device_pubkey d then record { scheme = e.scheme; sig = e.sig } ∷ rest else rest

-- `dedup()`, behind the device that is held.
unfoldable pub dedup_from : Bytes → List Bytes → List Bytes
dedup_from held [] = held ∷ []
dedup_from held (d ∷ ds) =
    let same = dedup_from held ds in
    let other = dedup_from d ds in if eqb d held then same else held ∷ other

unfoldable pub dedup : List Bytes → List Bytes
unfolding dedup_from
dedup [] = []
dedup (d ∷ ds) = dedup_from d ds

unfoldable pub vouchers : List ContinuityEgg → List Bytes
unfolding dedup
vouchers eggs =
    dedup (
      sort_by (λ (d : Bytes). d) (λ a b. false) (map (λ (e : ContinuityEgg). e.device_pubkey) eggs))

module _ (p : Primitives) where
  unfoldable pub successor_eggs : MembershipBlob → Bytes → List FleetSigner → List ContinuityEgg
  unfolding continuity_eggs_of
  successor_eggs predecessor msg [] = []
  successor_eggs predecessor msg (s ∷ signers) =
      continuity_eggs_of s.public (s.eggs msg (declared_mask p predecessor s.public))
      ++ successor_eggs predecessor msg signers

  -- `SuccessorRecord::new`
  unfoldable pub new_successor :
      MembershipBlob → Bytes → Bytes → List FleetSigner → Result SuccessionError SuccessorRecord
  unfolding successor_eggs
  new_successor predecessor new_genesis hp signers = do
    old ← ok_or (genesis_hash p predecessor) no_genesis
    ok (record {
      handle_proof = hp;
      new_genesis_hash = new_genesis;
      predecessor = predecessor;
      continuity_eggs =
          successor_eggs predecessor (succession_signing_bytes hp old new_genesis) signers;
    })

  -- `any(|e| !covers(MASK_KNOWN, 1 << e.scheme.min(15)))`
  unfoldable pub names_unknown : List ContinuityEgg → Bool
  names_unknown [] = false
  names_unknown (e ∷ es) = not (covers (mask_all p) (bit (min e.scheme 15))) || names_unknown es

  -- One voucher's verdict, under the predecessor's fold.
  unfoldable pub vouches : FoldState → Bytes → List ContinuityEgg → Bytes → Bool
  unfolding eggs_by
  vouches pred msg eggs d =
      if not (contains pred.members d)
      then false
      else verify_eggs p (eggs_by d eggs) (unwrap_or (ed25519_only p d) (find_slot d pred.bundles))
          msg pred.floor

  unfoldable pub any_vouches : FoldState → Bytes → List ContinuityEgg → List Bytes → Bool
  unfolding vouches
  any_vouches pred msg eggs [] = false
  any_vouches pred msg eggs (d ∷ ds) = vouches pred msg eggs d || any_vouches pred msg eggs ds

  abbrev pub lift_fold : Result FoldError FoldState → Result SuccessionError FoldState
  lift_fold (ok s) = ok s
  lift_fold (err e) = err (predecessor_invalid e)

  abbrev pub is_handle : Option Bytes → Bytes → Bool
  is_handle none hp = false
  is_handle (some h) hp = eqb h hp

  unfoldable pub verify_for_pin : SuccessorRecord → Bytes → Result SuccessionError (Unit {0})
  unfolding any_vouches names_unknown vouchers
  verify_for_pin r pinned = do
    pred ← lift_fold (fold_inner p r.predecessor)
    old ← ok_or (genesis_hash p r.predecessor) no_genesis
    reject (not (eqb old pinned)) other_pin
    reject (not (is_handle (handle_proof r.predecessor) r.handle_proof)) other_handle
    reject (names_unknown r.continuity_eggs) unknown_scheme
    reject
        (not (
          any_vouches pred (succession_signing_bytes r.handle_proof old r.new_genesis_hash)
            r.continuity_eggs (vouchers r.continuity_eggs)))
        no_vouch
    ok tt
