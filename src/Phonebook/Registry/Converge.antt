-- ===== src/Phonebook/Registry/Converge.antt =====
-- The plan of src/phonebook.rs `registry_plan`, landed, is what the fold says.
use fgtw.Base.{
  ◌^◌, ◌<◌, ◌≡◌, refl, inl, inr, false, not, ◌||◌, Option, none, some, List, [], ◌∷◌, ==_iff, map,
  length, All, arith, Bool-cases,
}
use fgtw.Base.Bytes.{Bytes, Is32}
use fgtw.Base.Int.{ℤ}
use fgtw.Primitives.{Primitives, Egg}
use fgtw.Pq.Scheme.{Mask}
use fgtw.Pq.Bundle.{is_empty}
use fgtw.Fleet.Build.Signer.{FleetSigner}
use fgtw.Phonebook.Record.{Record, device_pubkey, count}
use fgtw.Phonebook.Counts.{IsKey?, new_identity_count_lem}
use fgtw.Phonebook.Eggs.{eggs_ptr}
use fgtw.Phonebook.Mint.{new_identity_count}
use fgtw.Phonebook.Registry.{
  RegistryView, devices, pointer_writes, count_write, leaver_of, count_stale, plan_for,
}
use fgtw.Phonebook.Registry.Land.{
  Store, gather, extent, shown, land, land_all, land_all-snoc, Writer, IsAfter, IsOlder,
  keep_newer-IsAfter, land-pointer_writes,
}

module _ (p : Primitives) (signer : FleetSigner) (mask : Mask) (hp : Bytes) (t : ℤ)
    (writer : Writer p signer mask hp t) (departing : Option (Bytes × List Egg))
    (leaver32 : IsKey? (leaver_of p signer mask hp t departing)) where
  -- A view whose pointers are the devices `list`, and whose count says so.
  abbrev pub Shows : List Bytes → RegistryView → Type 0
  Shows list out =
      (devices out ≡ list) × ((c : Record) × (out.count_record ≡ some c) × (count c ≡ length list))

  land-count :
      (s : Store) (list : List Bytes) (ptr blob : Bytes)
      → Is32 ptr
      → map device_pubkey (gather 0 (length list) s.pointer_at) ≡ list
      → IsAfter t s.count_at
      → length list < 2 ^ 32
      → Shows list (
          shown (
            land p s (
              new_identity_count hp
                  (length list)
                  t
                  signer.public
                  (leaver_of p signer mask hp t departing)
                  ptr,
              blob,
            )))
  unfolding land devices shown
  land-count s list ptr blob ptr32 run after small =
      let leaver = leaver_of p signer mask hp t departing in
      let r = new_identity_count hp (length list) t signer.public leaver ptr in
      let (k, h, n, e, w, eggs, keyed) =
        new_identity_count_lem p hp (length list) t signer.public leaver ptr writer.handle
          writer.public leaver32 ptr32 small writer.time in
      rw (k, land, keep_newer-IsAfter s.count_at r e after, n) (run, (r, refl, n))

  land-count_write :
      (s : Store) (list : List Bytes)
      → map device_pubkey (gather 0 (length list) s.pointer_at) ≡ list
      → IsAfter t s.count_at
      → length list < 2 ^ 32
      → Shows list (shown (land p s (count_write p signer mask hp t (length list) departing)))
  unfolding count_write eggs_ptr
  land-count_write s list run after small =
      land-count s list _ _ (writer.digest.derived_length _ _) run after small

  unchanged :
      (s : Store) (list : List Bytes) (c? : Option Record)
      → s.count_at ≡ c?
      → (writes : List (Record × Bytes))
      → (not (is_empty writes) || count_stale p signer mask hp t c? (length list)) ≡ false
      → map device_pubkey (gather 0 (length list) (land_all p s writes).pointer_at) ≡ list
      → Shows list (shown (land_all p s writes))
  unfolding land_all count_stale devices shown
  unchanged s list none is_c [] calm run = cc
  unchanged s list c? is_c (w ∷ ws) calm run = cc
  unchanged s list (some c) is_c [] calm run =
      let same : count c ≡ length list = ground (arith, calm, ==_iff (count c) (length list)) in
      rw (is_c, same) (run, (c, refl, same))

  pub plan_for-Shows :
      (s : Store) (list : List Bytes)
      → IsOlder t s
      → All Is32 list
      → length list < 2 ^ 32
      → Shows list (shown (land_all p s (plan_for p signer mask hp t (shown s) departing list)))
  unfolding plan_for devices shown
  plan_for-Shows s list (count_after, after) all32 small =
      let writes = pointer_writes p signer mask hp t 0 (devices (shown s)) list in
      let due = not (is_empty writes) || count_stale p signer mask hp t s.count_at (length list) in
      let (run, below, counted) =
        land-pointer_writes p signer mask hp t writer list 0 (extent s.count_at) s
          (λ i least. after i) all32 (omega (arith, small)) in
      elim (Bool-cases due) [
        | inl due_now ↦
            rw
              (
                due_now,
                land_all-snoc p s writes (count_write p signer mask hp t (length list) departing),
              )
              (land-count_write (land_all p s writes) list run (rw counted count_after) small)
        | inr no_need ↦ rw no_need (unchanged s list s.count_at refl writes no_need run)
      ]
