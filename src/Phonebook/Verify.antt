-- ===== src/Phonebook/Verify.antt =====
-- src/phonebook.rs: the checks of a record's signatures, under a reader's policy.
use fgtw.Base.{
  ℕ, Bool, true, false, not, ◌&&◌, ◌||◌, Option, none, some, List, length, get_elem?, ltb,
  if◌then◌else◌,
}
use fgtw.Base.Bytes.{Bytes, eqb}
use fgtw.Primitives.{Primitives, Egg}
use fgtw.Pq.Scheme.{Mask, mask_base}
use fgtw.Pq.Bundle.{KeyBundle, ed25519_only}
use fgtw.Pq.Eggs.{verify_eggs_declared}
use fgtw.Phonebook.Record.{
  Record, identity_count, device_pointer, device_address, kind, record_eggs_ptr, device_pubkey,
  placer, witness, departing, handle_proof, epoch,
}
use fgtw.Phonebook.Mint.{
  address_signing_bytes, placement_signing_bytes, count_signing_bytes, departure_signing_bytes,
}
use fgtw.Phonebook.Eggs.{eggs_blob_max, eggs_blob_lists, eggs_ptr}

pub record EggPolicy : Type 0 where
  pub for_signer : Bytes → Option (KeyBundle × Mask)

-- `EggPolicy::anchor_only`
unfoldable pub anchor_only : EggPolicy
anchor_only = record { for_signer = λ signer. none }

-- `self.kind() == RecordKind::…`
unfoldable pub is_count : Record → Bool
is_count r = elim (kind r) [ identity_count ↦ true | _ ↦ false ]

unfoldable pub is_pointer : Record → Bool
is_pointer r = elim (kind r) [ device_pointer ↦ true | _ ↦ false ]

unfoldable pub is_address : Record → Bool
is_address r = elim (kind r) [ device_address ↦ true | _ ↦ false ]

module _ (p : Primitives) where
  unfoldable pub judge : EggPolicy → Bytes → KeyBundle × Mask
  judge policy signer = elim (policy.for_signer signer) [
    | none ↦ (ed25519_only p signer, mask_base p)
    | some answer ↦ answer
  ]

  -- `lists[idx]`: every caller's index is below the count it asks for.
  unfoldable pub list_verdict : Option (List (List Egg)) → ℕ → KeyBundle × Mask → Bytes → Bool
  list_verdict none idx (bundle, required) msg = false
  list_verdict (some lists) idx (bundle, required) msg = elim (get_elem? lists idx) [
    | none ↦ false
    | some eggs ↦ verify_eggs_declared p eggs bundle msg required
  ]

  unfoldable pub verify_list : Record → Bytes → ℕ → ℕ → Bytes → Bytes → EggPolicy → Bool
  unfolding judge list_verdict
  verify_list r blob idx n_lists signer msg policy =
      if ltb eggs_blob_max (length blob) || not (eqb (eggs_ptr p blob) (record_eggs_ptr r))
      then false
      else list_verdict (eggs_blob_lists p blob n_lists) idx (judge policy signer) msg

  unfoldable pub verify_address_with : Record → Bytes → EggPolicy → Bool
  unfolding verify_list is_address
  verify_address_with r blob policy =
      is_address r && verify_list r blob 0 1 (device_pubkey r) (address_signing_bytes r) policy

  unfoldable pub verify_placement_with : Record → Bytes → EggPolicy → Bool
  unfolding verify_list is_pointer
  verify_placement_with r blob policy =
      is_pointer r && verify_list r blob 0 1 (placer r) (placement_signing_bytes r) policy

  unfoldable pub verify_count_with : Record → Bytes → EggPolicy → Bool
  unfolding verify_list is_count
  verify_count_with r blob policy =
      is_count r && verify_list r blob 0 2 (witness r) (count_signing_bytes r) policy

  unfoldable pub verify_departure_with : Record → Bytes → EggPolicy → Bool
  unfolding verify_list is_count
  verify_departure_with r blob policy = if not (is_count r) then false else elim (departing r) [
    | none ↦ true
    | some dev ↦
        verify_list r blob 1 2 dev (departure_signing_bytes (handle_proof r) dev (epoch r)) policy
  ]
