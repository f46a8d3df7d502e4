-- ===== src/Tests/Codec.antt =====
-- A codec of egg lists that reads back what it writes, and the blobs and checks under it.
use fgtw.Base.{
  ℕ, zero, suc, ◌≤◌, ◌≡◌, refl, arith, true, Option, none, some, List, [], ◌∷◌, ◌++◌, length,
  length-append, take, drop, take-append, drop-append, replicate, All,
}
use fgtw.Base.Bytes.{Bytes, eqb, le_bytes, from_le_bytes}
use fgtw.Base.Int.{pos}
use fgtw.Primitives.{Primitives, Egg, EggsRoundTrip}
use fgtw.Fleet.Members.{Slot, find_slot}
use fgtw.Phonebook.Record.{
  record_eggs_ptr, kind, from_byte, kind_tag, handle_proof, count, index, departing, witness,
  placer,
}
use fgtw.Phonebook.Mint.{new_device_pointer, new_identity_count, blank, write_departing}
use fgtw.Phonebook.Eggs.{list_bytes, eggs_blob, eggs_blob_lists, eggs_ptr, list_of}
use fgtw.Phonebook.Unpack.{IsPacked, eggs_blob_lists-eggs_blob}
use fgtw.Phonebook.Verify.{
  anchor_only, verify_count_with, verify_departure_with, verify_placement_with, is_count,
  is_pointer, list_verdict, judge,
}
use fgtw.Phonebook.Registry.{RegistryView, verify_with}
use fgtw.Phonebook.Registry.Dense.{IsAttested, IsDense, verify_with-IsDense}
use fgtw.Phonebook.Layout.{rd32, rd_u32, read, write}
use fgtw.Pq.Eggs.{verify_eggs_declared, verify_egg, declared_loop, declared_verdict}
use fgtw.Pq.Bundle.{pubkey, ed25519_only}
use fgtw.Pq.Scheme.{mask_base, covers}
use fgtw.Tests.Toy.{toy, phone, laptop, egg}

abbrev write_eggs : List Egg → Bytes
write_eggs [] = []
write_eggs (e ∷ es) = e.scheme ∷ length e.sig ∷ (e.sig ++ write_eggs es)

abbrev push_egg : Egg → Option (List Egg) → Option (List Egg)
push_egg e none = none
push_egg e (some es) = some (e ∷ es)

abbrev read_eggs : ℕ → Bytes → Option (List Egg)
read_eggs fuel [] = some []
read_eggs zero (s ∷ b) = none
read_eggs (suc fuel) (s ∷ []) = none
read_eggs (suc fuel) (s ∷ n ∷ b) =
    push_egg (record { scheme = s; sig = take n b }) (read_eggs fuel (drop n b))

read_eggs-write_eggs :
    (fuel : ℕ) (es : List Egg) → length es ≤ fuel → read_eggs fuel (write_eggs es) ≡ some es
read_eggs-write_eggs zero [] enough = refl
read_eggs-write_eggs (suc fuel) [] enough = refl
read_eggs-write_eggs zero (e ∷ es) enough = absurd (omega (arith, enough))
read_eggs-write_eggs (suc fuel) (e ∷ es) enough =
    let later = read_eggs-write_eggs fuel es (omega (arith, enough)) in
    rw (take-append e.sig (write_eggs es), drop-append e.sig (write_eggs es), later) refl

write_eggs-long : (es : List Egg) → length es ≤ length (write_eggs es)
write_eggs-long [] = omega arith
write_eggs-long (e ∷ es) = omega (arith, write_eggs-long es, length-append e.sig (write_eggs es))

-- The toy primitives with this codec.
abbrev pub coded : Primitives
coded = record toy {
  eggs_to_bytes = λ es. write_eggs es;
  eggs_from_bytes = λ b. read_eggs (length b) b;
}

pub codec : EggsRoundTrip coded
codec = record {
  eggs_round_trip = λ es. read_eggs-write_eggs (length (write_eggs es)) es (write_eggs-long es);
}

abbrev lists : List (List Egg)
lists = (egg ∷ []) ∷ [] ∷ []

packed : All (IsPacked coded) lists
unfolding list_bytes
packed = ((omega arith, refl), ((omega arith, refl), tt))

eggs_blob_lists-eggs_blob_example : eggs_blob_lists coded (eggs_blob coded lists) 2 ≡ some lists
eggs_blob_lists-eggs_blob_example = eggs_blob_lists-eggs_blob coded lists codec packed

abbrev identity : Bytes
identity = replicate 32 7

-- It left, and its consent is filed with the count.
abbrev left : Bytes
left = replicate 32 5

abbrev placer_blob : Bytes
placer_blob = eggs_blob coded ((egg ∷ []) ∷ [])

abbrev witness_blob : Bytes
witness_blob = eggs_blob coded ((egg ∷ egg ∷ []) ∷ (egg ∷ []) ∷ [])

abbrev filed : Bytes → Slot Bytes
filed blob = record { device = eggs_ptr coded blob; value = blob }

abbrev stored : RegistryView
stored = record {
  count_record =
      some (new_identity_count identity 1 (pos 5) phone (some left) (eggs_ptr coded witness_blob));
  pointers = new_device_pointer identity 0 laptop (pos 5) phone (eggs_ptr coded placer_blob) ∷ [];
  blobs = filed witness_blob ∷ filed placer_blob ∷ [];
}

passes : verify_with coded stored identity anchor_only ≡ true
unfolding verify_with find_slot eqb eggs_ptr record_eggs_ptr kind from_byte new_identity_count
    new_device_pointer rd32 le_bytes eggs_blob verify_count_with eggs_blob_lists
    verify_eggs_declared pubkey anchor_only ed25519_only verify_egg from_le_bytes list_bytes list_of
    rd_u32 read write blank write_departing kind_tag mask_base covers verify_departure_with
    verify_placement_with handle_proof count index departing is_count is_pointer list_verdict judge
    declared_loop declared_verdict witness placer
passes = refl

verify_with-IsDense_example :
    IsAttested coded stored identity anchor_only stored.count_record
    × IsDense coded stored identity anchor_only 0 stored.pointers
verify_with-IsDense_example = verify_with-IsDense coded stored identity anchor_only passes
