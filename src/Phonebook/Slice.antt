-- ===== src/Phonebook/Slice.antt =====
-- src/phonebook.rs `Slice`. Its buffer is held as the list of its slots; a walk to the right from a
-- slot is a recursion on the slots from there on, with the number of the first of them.
pub mod Run
pub mod Lookup
pub mod Gap
pub mod Insert
pub mod Prefix
pub mod Outcome
pub mod Remove
pub mod Refine
pub mod Unique
pub mod Body
pub mod Checked
pub mod Adopt
pub mod Empty
use fgtw.Base.{
  ℕ, zero, suc, ◌+◌, ◌-◌, Bool, true, false, not, Option, none, some, List, [], ◌∷◌, ◌++◌, ◌==◌,
  ltb, take, drop, length, replicate, if◌then◌else◌,
}
use fgtw.Base.Bytes.{Bytes, eqb}
use fgtw.Base.ByteOrder.{ltb_bytes}
use fgtw.Base.Int.{ℤ, leb_ℤ}
use fgtw.Base.Result.{Result, ok, err}
use fgtw.Primitives.{Primitives}
use fgtw.Phonebook.Keys.{slice_slots, slice_of, slot_of}
use fgtw.Phonebook.Record.{Record, empty_record, epoch, key, is_empty_record}

pub data SliceError : Type 0 where
  full : SliceError
  -- stored, incoming
  stale_epoch : ℤ → ℤ → SliceError
  -- expected, got
  wrong_slice : ℕ → ℕ → SliceError
  no_record : SliceError

pub record Slice : Type 0 where
  pub slice_bits : ℕ
  pub slice_id : ℕ
  pub buf : List Record
  pub fill : ℕ

unfoldable pub new_slice : ℕ → ℕ → Slice
new_slice slice_bits slice_id = record {
  slice_bits = slice_bits;
  slice_id = slice_id;
  buf = replicate slice_slots empty_record;
  fill = 0;
}

unfoldable pub ideal : Slice → Bytes → ℕ
ideal s k = slot_of k s.slice_bits

-- What `insert` did: the slot, the slots from where it began, and whether the fill grew.
pub record Placed : Type 0 where
  pub slot : ℕ
  pub slots : List Record
  pub grew : Bool

-- The record of the slot that the walk steps past stays.
abbrev pub keep : Record → Result SliceError Placed → Result SliceError Placed
keep occ (ok placed) = ok (record placed { slots = occ ∷ placed.slots })
keep occ (err e) = err e

-- A new record in the slot `s`, ahead of the slots behind.
abbrev pub drop_in : ℕ → Record → Option (List Record) → Result SliceError Placed
drop_in s rec none = err full
drop_in s rec (some behind) = ok (record { slot = s; slots = rec ∷ behind; grew = true })

-- `next_gap`, and the run up to it moved one slot right: the gap is given up.
unfoldable pub close_gap : List Record → Option (List Record)
close_gap [] = none
close_gap (occ ∷ rest) =
    let behind = close_gap rest in
    if is_empty_record occ
    then some rest
    else elim behind [ none ↦ none | some moved ↦ some (occ ∷ moved) ]

module _ (p : Primitives) where
  -- The loop of `lookup`.
  unfoldable pub scan : Bytes → ℕ → List Record → Option (ℕ × Record)
  scan k s [] = none
  scan k s (rec ∷ rest) = elim (key p rec) [
    | none ↦ none
    | some j ↦
        if eqb j k then some (s, rec) else if ltb_bytes k j then none else scan k (suc s) rest
  ]

  unfoldable pub lookup : Slice → Bytes → Option (ℕ × Record)
  unfolding scan ideal
  lookup s k = scan k (ideal s k) (drop (ideal s k) s.buf)

  -- The loop of `insert`, of the record `rec` whose key is `k`.
  unfoldable pub place : Record → Bytes → ℕ → List Record → Result SliceError Placed
  unfolding close_gap
  place rec k s [] = err full
  place rec k s (occ ∷ rest) =
      let later = place rec k (suc s) rest in
      elim (key p occ) [
        | none ↦ ok (record { slot = s; slots = rec ∷ rest; grew = true })
        | some j ↦
            if eqb j k
            then (if leb_ℤ (epoch rec) (epoch occ)
                then err (stale_epoch (epoch occ) (epoch rec))
                else ok (record { slot = s; slots = rec ∷ rest; grew = false }))
            else if ltb_bytes j k
            then keep occ later
            else drop_in s rec (close_gap (occ ∷ rest))
      ]

  -- The slots before the ideal one stay.
  abbrev pub place_back :
      Slice → List Record → Result SliceError Placed → Result SliceError (ℕ × Slice)
  place_back s before (err e) = err e
  place_back s before (ok placed) = ok (
    placed.slot,
    record s { buf = before ++ placed.slots; fill = if placed.grew then suc s.fill else s.fill },
  )

  unfoldable pub insert_key_at : Slice → Record → Bytes → Result SliceError (ℕ × Slice)
  unfolding place ideal
  insert_key_at s rec k =
      let sid = slice_of k s.slice_bits in
      if not (sid == s.slice_id)
      then err (wrong_slice s.slice_id sid)
      else place_back s (take (ideal s k) s.buf) (place rec k (ideal s k) (drop (ideal s k) s.buf))

  unfoldable pub insert : Slice → Record → Result SliceError (ℕ × Slice)
  unfolding insert_key_at
  insert s rec = elim (key p rec) [ none ↦ err no_record | some k ↦ insert_key_at s rec k ]

  -- The loop of `remove`: `free` is the slot to fill, in front of the slots given.
  unfoldable pub pull : ℕ → ℕ → List Record → List Record
  pull slice_bits free [] = empty_record ∷ []
  pull slice_bits free (rec ∷ rest) =
      let later = pull slice_bits (suc free) rest in
      elim (key p rec) [
        | none ↦ empty_record ∷ rec ∷ rest
        | some j ↦
            if ltb free (slot_of j slice_bits) then empty_record ∷ rec ∷ rest else rec ∷ later
      ]

  unfoldable pub remove : Slice → Bytes → Slice × Bool
  unfolding lookup pull
  remove s k = elim (lookup s k) [
    | none ↦ (s, false)
    | some (slot, rec) ↦ (
      record s {
        buf = take slot s.buf ++ pull s.slice_bits slot (drop (suc slot) s.buf);
        fill = s.fill - 1;
      },
      true,
    )
  ]
