-- ===== src/Tests/Registry.antt =====
-- A registry that has one device of two and one that left, and its plan.
use fgtw.Base.{
  ℕ, ◌<◌, ◌^◌, ◌≡◌, refl, arith, ◌&&◌, none, some, Option, zero, suc, List, [], ◌∷◌, replicate,
  length,
}
use fgtw.Base.Bytes.{Bytes, eqb, le_bytes, from_le_bytes}
use fgtw.Base.Int.{pos, i64_of}
use fgtw.Fleet.Members.{contains, Distinct}
use fgtw.Fleet.Build.Signer.{FleetSigner, keypair_signer}
use fgtw.Phonebook.Record.{
  Record, kind, key, handle_proof, index, device_pubkey, epoch, placer, record_eggs_ptr,
  device_pointer, rd_i64, count, kind_tag, from_byte,
}
use fgtw.Phonebook.Layout.{read, write, rd32, rd_u32}
use fgtw.Phonebook.Keys.{key_pointer}
use fgtw.Phonebook.Mint.{new_device_pointer, new_identity_count, blank, write_departing}
use fgtw.Phonebook.Pointers.{new_device_pointer_lem}
use fgtw.Phonebook.Registry.{devices, target, settle, registry_plan, append_new, swap_pop, but_last}
use fgtw.Phonebook.Registry.Settle.{contains-settle}
use fgtw.Phonebook.Registry.Land.{Store, gather, shown, land_all, Writer, IsAfter, IsOlder}
use fgtw.Phonebook.Registry.Settled.{registry_plan-converges}
use fgtw.Tests.Toy.{toy, phone, laptop}
use fgtw.Tests.Phonebook.{digest}

abbrev identity : Bytes
identity = replicate 32 7

abbrev tablet : Bytes
tablet = replicate 32 5

abbrev signer : FleetSigner
signer = keypair_signer toy phone

abbrev pointer : ℕ → Bytes → Record
pointer i dev = new_device_pointer identity i dev (pos 100) phone (replicate 32 3)

abbrev kept : ℕ → Option Record
kept zero = some (pointer 0 tablet)
kept (suc zero) = some (pointer 1 phone)
kept (suc (suc zero)) = some (pointer 2 laptop)
kept (suc (suc (suc i))) = none

-- The tablet has left the fleet, and the laptop has come back: an old pointer of its stands behind the
-- count.
abbrev stored : Store
stored = record {
  count_at = some (new_identity_count identity 2 (pos 100) phone none (replicate 32 4));
  pointer_at = kept;
  blobs = [];
}

abbrev fleet : List Bytes
fleet = phone ∷ laptop ∷ []

contains-settle_example :
    contains (settle 2 fleet (tablet ∷ phone ∷ [])) phone
    ≡ (contains (tablet ∷ phone ∷ []) phone && contains fleet phone)
contains-settle_example = contains-settle 2 fleet (tablet ∷ phone ∷ []) (omega arith) phone

new_device_pointer_lem_example :
    let r = new_device_pointer identity 1 laptop (pos 100) phone (replicate 32 3) in
    (kind r ≡ device_pointer)
    × (handle_proof r ≡ identity)
    × (index r ≡ 1)
    × (device_pubkey r ≡ laptop)
    × (epoch r ≡ pos 100)
    × (placer r ≡ phone)
    × (record_eggs_ptr r ≡ replicate 32 3)
    × (key toy r ≡ some (key_pointer toy identity 1))
new_device_pointer_lem_example =
    new_device_pointer_lem toy identity 1 laptop (pos 100) phone (replicate 32 3) refl refl refl
      refl (omega arith) (omega arith, omega arith)

writer : Writer toy signer 1 identity (pos 500)
unfolding keypair_signer
writer = record { digest = digest; handle = refl; public = refl; time = (omega arith, omega arith) }

older : IsOlder (pos 500) stored
unfolding epoch kind from_byte new_identity_count new_device_pointer blank write write_departing
    kind_tag rd_i64 i64_of read le_bytes from_le_bytes
older = (refl, after)
  where
    after : (i : ℕ) → IsAfter (pos 500) (kept i)
    after zero = refl
    after (suc zero) = refl
    after (suc (suc zero)) = refl
    after (suc (suc (suc i))) = tt

few : length (target fleet (devices (shown stored))) < 2 ^ 32
unfolding target settle append_new swap_pop but_last contains eqb devices device_pubkey kind
    from_byte new_device_pointer blank write kind_tag rd32 read le_bytes shown gather count
    new_identity_count write_departing rd_u32 from_le_bytes
few = let size : length (target fleet (devices (shown stored))) ≡ 2 = refl in omega (arith, size)

registry_plan-converges_example :
    let out = shown (
      land_all toy stored
        (registry_plan toy signer 1 identity (pos 500) fleet (shown stored) none)) in
    ((d : Bytes) → contains (devices out) d ≡ contains fleet d)
    × (Distinct (devices (shown stored)) → Distinct (devices out))
    × (registry_plan toy signer 1 identity (pos 500) fleet out none ≡ [])
registry_plan-converges_example =
    registry_plan-converges toy signer 1 identity (pos 500) fleet stored none none writer tt older
      (refl, (refl, tt)) few
