-- ===== src/Tests/Phonebook.antt =====
-- A slice of the toy keyspace with two records, and a registry that converges.
use fgtw.Base.{
  ◌↔◌, ℕ, zero, suc, ◌%◌, ◌≡◌, refl, arith, none, some, ◌∷◌, ◌++◌, replicate, map, All,
  if◌then◌else◌,
}
use fgtw.Base.Bytes.{Bytes, eqb, le_bytes, from_le_bytes}
use fgtw.Base.BigEndian.{IsByte, from_be_bytes}
use fgtw.Base.Int.{pos}
use fgtw.Base.Result.{Result, ok, err}
use fgtw.Primitives.{DigestBytes}
use fgtw.Phonebook.Keys.{IsKey, slice_of, slot_of, key_pointer, key_identity}
use fgtw.Phonebook.Record.{Record, key, kind, from_byte, kind_tag, empty_record, is_empty_record}
use fgtw.Phonebook.Layout.{read, write, rd32, rd_u32}
use fgtw.Phonebook.Mint.{blank, write_departing, new_identity_count, new_device_pointer}
use fgtw.Phonebook.Slice.{
  Slice, SliceError, new_slice, insert, remove, lookup, ideal, insert_key_at,
}
use fgtw.Phonebook.Slice.Lookup.{IsValid, record_of}
use fgtw.Phonebook.Slice.Run.{find, IsHere}
use fgtw.Pq.Bundle.{is_some}
use fgtw.Phonebook.Slice.Outcome.{IsInserted, insert-IsInserted}
use fgtw.Phonebook.Slice.Refine.{lookup-insert, lookup-remove}
use fgtw.Phonebook.Slice.Unique.{occupant, remove-insert}
use fgtw.Phonebook.Slice.Body.{as_bytes, from_bytes, check_invariants}
use fgtw.Phonebook.Slice.Adopt.{IsSized, from_bytes-as_bytes}
use fgtw.Phonebook.Slice.Checked.{IsRight, IsRising, check_invariants_iff}
use fgtw.Phonebook.Slice.Empty.{new_slice-IsValid}
use fgtw.Tests.Toy.{toy, sum, phone, laptop}

bytes-replicate : (n b : ℕ) → All IsByte (replicate n (b % 251))
bytes-replicate zero b = tt
bytes-replicate (suc n) b = (omega arith, bytes-replicate n b)

pub digest : DigestBytes toy
digest = record {
  derived_length = λ context a. refl;
  digest_length = λ a. refl;
  digest_bytes = λ a. bytes-replicate 32 (sum a);
}

abbrev identity : Bytes
identity = replicate 32 7

abbrev place : Record
place = new_device_pointer identity 0 laptop (pos 500) phone (replicate 32 3)

abbrev headcount : Record
headcount = new_identity_count identity 1 (pos 500) phone none (replicate 32 4)

abbrev slice_or : Slice → Result SliceError (ℕ × Slice) → Slice
slice_or s (ok (slot, s')) = s'
slice_or s (err e) = s

abbrev fresh : Slice
fresh = new_slice 0 0

abbrev one : Slice
one = slice_or fresh (insert toy fresh place)

abbrev both : Slice
both = slice_or one (insert toy one headcount)

insert-IsInserted_example : IsInserted toy fresh place (insert toy fresh place)
insert-IsInserted_example =
    insert-IsInserted toy fresh place digest (new_slice-IsValid toy 0 0 (omega arith))

placed : insert toy fresh place ≡ ok (1317, one)
unfolding insert insert_key_at key kind from_byte key_pointer new_device_pointer write blank
    kind_tag new_slice rd32 rd_u32 read slice_of slot_of ideal from_be_bytes empty_record le_bytes
    from_le_bytes
placed = refl

counted : insert toy one headcount ≡ ok (2489, both)
unfolding insert insert_key_at key kind from_byte key_pointer key_identity new_device_pointer
    new_identity_count write write_departing blank kind_tag new_slice rd32 rd_u32 read slice_of
    slot_of ideal from_be_bytes empty_record le_bytes from_le_bytes
counted = refl

place-IsKey : IsKey (replicate 32 82)
place-IsKey = (refl, bytes-replicate 32 82)

count-IsKey : IsKey (replicate 32 155)
count-IsKey = (refl, bytes-replicate 32 155)

keyed : key toy place ≡ some (replicate 32 82)
unfolding key kind from_byte key_pointer new_device_pointer write blank kind_tag rd32 rd_u32 read
    le_bytes from_le_bytes
keyed = refl

fresh-IsHere : IsHere toy fresh.slice_bits fresh.slice_id (replicate 32 155)
unfolding new_slice slice_of
fresh-IsHere = (count-IsKey, refl)

one-IsHere : (k : Bytes) → IsKey k → IsHere toy one.slice_bits one.slice_id k
unfolding insert key kind from_byte new_device_pointer slice_of new_slice slot_of from_be_bytes
    key_pointer rd32 le_bytes rd_u32 from_le_bytes empty_record
one-IsHere k good = (good, refl)

fresh-IsValid : IsValid toy fresh
fresh-IsValid = new_slice-IsValid toy 0 0 (omega arith)

lookup-insert_example :
    IsValid toy one
    × (record_of (lookup toy one (replicate 32 155)) ≡ (
        if eqb (replicate 32 82) (replicate 32 155)
        then some place
        else record_of (lookup toy fresh (replicate 32 155))))
lookup-insert_example =
    lookup-insert toy fresh one place 1317 (replicate 32 82) (replicate 32 155) digest fresh-IsValid
      keyed placed fresh-IsHere

one-IsValid : IsValid toy one
one-IsValid = lookup-insert_example.0

lookup-remove_example :
    IsValid toy (remove toy one (replicate 32 82)).0
    × (record_of (lookup toy (remove toy one (replicate 32 82)).0 (replicate 32 155)) ≡ (
        if eqb (replicate 32 82) (replicate 32 155)
        then none
        else record_of (lookup toy one (replicate 32 155))))
    × ((remove toy one (replicate 32 82)).1
        ≡ is_some (record_of (lookup toy one (replicate 32 82))))
lookup-remove_example =
    lookup-remove toy one (replicate 32 82) (replicate 32 155) one-IsValid
      (one-IsHere (replicate 32 82) place-IsKey) (one-IsHere (replicate 32 155) count-IsKey)

nothing : find toy (replicate 32 155) one.buf ≡ none
unfolding insert insert_key_at key kind from_byte key_pointer new_device_pointer write blank
    kind_tag new_slice rd32 rd_u32 read slice_of slot_of ideal from_be_bytes empty_record le_bytes
    from_le_bytes find eqb
nothing = refl

count_keyed : key toy headcount ≡ some (replicate 32 155)
unfolding key kind from_byte key_identity new_identity_count write write_departing blank kind_tag
    rd32 read le_bytes
count_keyed = refl

remove-insert_example :
    map (occupant toy) (remove toy both (replicate 32 155)).0.buf ≡ map (occupant toy) one.buf
remove-insert_example =
    remove-insert toy one both headcount 2489 (replicate 32 155) digest one-IsValid count_keyed
      nothing counted

check_invariants_iff_example :
    (check_invariants toy one ≡ ok tt)
    ↔ (IsRight toy one.slice_bits 0 one.buf × IsRising toy one.buf)
check_invariants_iff_example = check_invariants_iff toy one

all-replicate : (n : ℕ) → IsSized (replicate n empty_record)
unfolding empty_record
all-replicate zero = tt
all-replicate (suc n) = (refl, all-replicate n)

fresh-IsSized : IsSized fresh.buf
unfolding new_slice
fresh-IsSized = all-replicate 4096

from_bytes-as_bytes_example : from_bytes 0 0 (as_bytes fresh) ≡ some fresh
unfolding new_slice
from_bytes-as_bytes_example = from_bytes-as_bytes toy fresh fresh-IsValid fresh-IsSized

-- The record one slot right of its ideal slot, which is empty.
abbrev adrift : Slice
adrift = record fresh {
  buf = replicate 1318 empty_record ++ (place ∷ replicate 2777 empty_record);
  fill = 1;
}

adrift_passes : check_invariants toy adrift ≡ ok tt
unfolding check_invariants is_empty_record kind from_byte empty_record new_device_pointer key
    slot_of from_be_bytes key_pointer rd32 le_bytes rd_u32 from_le_bytes new_slice
adrift_passes = refl

adrift_lost : lookup toy adrift (replicate 32 82) ≡ none
unfolding lookup slot_of from_be_bytes new_slice key kind from_byte empty_record
adrift_lost = refl
