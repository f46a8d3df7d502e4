-- ===== src/Phonebook/Registry.antt =====
-- src/phonebook.rs: the registry of an identity as read back from storage, and the plan of writes
-- that converges it on the folded member set.
pub mod Settle
pub mod Target
pub mod Land
pub mod Rule
pub mod Converge
pub mod Settled
pub mod Dense
use fgtw.Base.{
  ℕ, zero, suc, Bool, true, false, not, ◌&&◌, ◌||◌, Option, none, some, List, [], ◌∷◌, ◌++◌, ◌==◌,
  leb, map, length, last, if◌then◌else◌,
}
use fgtw.Base.Bytes.{Bytes, zero32, eqb}
use fgtw.Base.Int.{ℤ}
use fgtw.Primitives.{Primitives, Egg}
use fgtw.Pq.Scheme.{Mask}
use fgtw.Pq.Bundle.{is_empty}
use fgtw.Fleet.Members.{Slot, contains, find_slot, put_slot}
use fgtw.Fleet.Build.Signer.{FleetSigner}
use fgtw.Phonebook.Record.{Record, device_pubkey, handle_proof, index, count, record_eggs_ptr}
use fgtw.Phonebook.Mint.{
  new_device_pointer, new_identity_count, placement_signing_bytes, count_signing_bytes,
}
use fgtw.Phonebook.Eggs.{eggs_blob, eggs_ptr, eggs_blob_max}
use fgtw.Phonebook.Verify.{
  EggPolicy, verify_count_with, verify_departure_with, verify_placement_with,
}

-- The map of blobs is a list of slots, one for each content address.
pub record RegistryView : Type 0 where
  pub count_record : Option Record
  pub pointers : List Record
  pub blobs : List (Slot Bytes)

unfoldable pub devices : RegistryView → List Bytes
devices view = map device_pubkey view.pointers

unfoldable pub blob_of : RegistryView → Record → Option Bytes
blob_of view rec = find_slot (record_eggs_ptr rec) view.blobs

-- The pointer at the head of the swapped-out slot's tail: `swap(i, last)` and `pop()`, of the list
-- from `i` on without its first.
unfoldable pub but_last : List Bytes → List Bytes
but_last [] = []
but_last (x ∷ []) = []
but_last (x ∷ y ∷ xs) = x ∷ but_last (y ∷ xs)

unfoldable pub swap_pop : List Bytes → List Bytes
unfolding but_last
swap_pop rest = elim (last rest) [ none ↦ [] | some tail ↦ tail ∷ but_last rest ]

-- The loop `while i < list.len()`, of the list from `i` on. Each round takes one device off it, so
-- the list's length is fuel enough.
unfoldable pub settle : ℕ → List Bytes → List Bytes → List Bytes
unfolding swap_pop
settle zero fold rest = rest
settle (suc fuel) fold [] = []
settle (suc fuel) fold (d ∷ rest) =
    let kept = settle fuel fold rest in
    let moved = settle fuel fold (swap_pop rest) in if contains fold d then d ∷ kept else moved

-- `for d in fold { if !list.contains(d) { list.push(*d) } }`
unfoldable pub append_new : List Bytes → List Bytes → List Bytes
append_new list [] = list
append_new list (d ∷ ds) =
    let kept = append_new list ds in
    let pushed = append_new (list ++ d ∷ []) ds in if contains list d then kept else pushed

unfoldable pub target : List Bytes → List Bytes → List Bytes
unfolding settle append_new
target fold current = append_new (settle (length current) fold current) fold

module _ (p : Primitives) where
  unfoldable pub add_blob : RegistryView → Bytes → RegistryView
  add_blob view blob =
      if leb (length blob) eggs_blob_max
      then record view { blobs = put_slot (eggs_ptr p blob) blob view.blobs }
      else view

  -- The count record's part of `verify_with`.
  unfoldable pub verify_extent : RegistryView → Bytes → EggPolicy → Option Record → Bool
  unfolding blob_of
  verify_extent view hp policy none = is_empty view.pointers
  verify_extent view hp policy (some c) = elim (blob_of view c) [
    | none ↦ false
    | some blob ↦
        verify_count_with p c blob policy
        && (verify_departure_with p c blob policy
            && (eqb (handle_proof c) hp && (count c == length view.pointers)))
  ]

  -- The loop over the pointers, from index `i` on.
  unfoldable pub verify_pointers : RegistryView → Bytes → EggPolicy → ℕ → List Record → Bool
  unfolding blob_of
  verify_pointers view hp policy i [] = true
  verify_pointers view hp policy i (r ∷ rs) =
      let later = verify_pointers view hp policy (suc i) rs in
      elim (blob_of view r) [
        | none ↦ false
        | some blob ↦
            verify_placement_with p r blob policy
            && (eqb (handle_proof r) hp && ((index r == i) && later))
      ]

  unfoldable pub verify_with : RegistryView → Bytes → EggPolicy → Bool
  unfolding verify_extent verify_pointers
  verify_with view hp policy =
      verify_extent view hp policy view.count_record
      && verify_pointers view hp policy 0 view.pointers

  module _ (signer : FleetSigner) (mask : Mask) (hp : Bytes) (epoch : ℤ) where
    unfoldable pub pointer_write : ℕ → Bytes → Record × Bytes
    pointer_write idx dev =
        let unsigned = new_device_pointer hp idx dev epoch signer.public zero32 in
        let blob = eggs_blob p (signer.eggs (placement_signing_bytes unsigned) mask ∷ []) in
        (new_device_pointer hp idx dev epoch signer.public (eggs_ptr p blob), blob)

    -- The loop over the list from index `idx` on, beside the current devices from there on.
    unfoldable pub pointer_writes : ℕ → List Bytes → List Bytes → List (Record × Bytes)
    unfolding pointer_write
    pointer_writes idx current [] = []
    pointer_writes idx [] (dev ∷ devs) = pointer_write idx dev ∷ pointer_writes (suc idx) [] devs
    pointer_writes idx (c ∷ current) (dev ∷ devs) =
        let rest = pointer_writes (suc idx) current devs in
        if eqb c dev then rest else pointer_write idx dev ∷ rest

    abbrev pub leaver_of : Option (Bytes × List Egg) → Option Bytes
    leaver_of none = none
    leaver_of (some (d, eggs)) = some d

    abbrev pub consent_of : Option (Bytes × List Egg) → List Egg
    consent_of none = []
    consent_of (some (d, eggs)) = eggs

    unfoldable pub count_write : ℕ → Option (Bytes × List Egg) → Record × Bytes
    count_write n departing =
        let leaver = leaver_of departing in
        let unsigned = new_identity_count hp n epoch signer.public leaver zero32 in
        let eggs = signer.eggs (count_signing_bytes unsigned) mask in
        let blob = eggs_blob p (eggs ∷ consent_of departing ∷ []) in
        (new_identity_count hp n epoch signer.public leaver (eggs_ptr p blob), blob)

    unfoldable pub count_stale : Option Record → ℕ → Bool
    count_stale none n = true
    count_stale (some c) n = not (count c == n)

    -- The writes of the changed pointers, and of the count where it is due.
    unfoldable pub plan_for :
        RegistryView → Option (Bytes × List Egg) → List Bytes → List (Record × Bytes)
    unfolding pointer_writes count_write count_stale devices
    plan_for view departing list =
        let writes = pointer_writes 0 (devices view) list in
        if not (is_empty writes) || count_stale view.count_record (length list)
        then writes ++ count_write (length list) departing ∷ []
        else writes

    unfoldable pub registry_plan :
        List Bytes → RegistryView → Option (Bytes × List Egg) → List (Record × Bytes)
    unfolding plan_for target devices
    registry_plan fold view departing = plan_for view departing (target fold (devices view))
