-- ===== src/Phonebook/Slice/Body.antt =====
-- src/phonebook.rs `Slice`: the raw body, the records in order, and the check of an adopted slice.
use fgtw.Base.{
  ℕ, zero, suc, ◌*◌, Bool, false, not, Option, none, some, List, [], ◌∷◌, ◌++◌, ◌==◌, ltb, take,
  drop, length, if◌then◌else◌,
}
use fgtw.Base.Bytes.{Bytes}
use fgtw.Base.ByteOrder.{leb_bytes}
use fgtw.Base.Result.{Result, ok, ◌>>◌, reject, ok_or, ◌>>=◌}
use fgtw.Primitives.{Primitives}
use fgtw.Phonebook.Keys.{slice_slots, stride, slot_of}
use fgtw.Phonebook.Record.{Record, key, is_empty_record}
use fgtw.Phonebook.Slice.{Slice}

-- The slots one behind the other.
unfoldable pub slots_bytes : List Record → Bytes
slots_bytes [] = []
slots_bytes (rec ∷ rest) = rec.bytes ++ slots_bytes rest

unfoldable pub as_bytes : Slice → Bytes
unfolding slots_bytes
as_bytes s = slots_bytes s.buf

-- `n` slots of `STRIDE` bytes.
unfoldable pub chop : ℕ → Bytes → List Record
chop zero b = []
chop (suc n) b = record { bytes = take stride b } ∷ chop n (drop stride b)

-- `filter(|&i| !s.at(i).is_empty()).count()`
unfoldable pub count_fill : List Record → ℕ
count_fill [] = 0
count_fill (rec ∷ rest) = let n = count_fill rest in if is_empty_record rec then n else suc n

-- A body of `slots` slots.
unfoldable pub read_body : ℕ → ℕ → ℕ → Bytes → Option Slice
unfolding chop count_fill
read_body slots slice_bits slice_id b =
    if not (length b == slots * stride)
    then none
    else some (record {
      slice_bits = slice_bits;
      slice_id = slice_id;
      buf = chop slots b;
      fill = count_fill (chop slots b);
    })

unfoldable pub from_bytes : ℕ → ℕ → Bytes → Option Slice
unfolding read_body
from_bytes slice_bits slice_id b = read_body slice_slots slice_bits slice_id b

-- `iter`: the occupied slots, with their numbers.
unfoldable pub iter_from : ℕ → List Record → List (ℕ × Record)
iter_from s [] = []
iter_from s (rec ∷ rest) =
    let later = iter_from (suc s) rest in if is_empty_record rec then later else (s, rec) ∷ later

unfoldable pub iter : Slice → List (ℕ × Record)
unfolding iter_from
iter s = iter_from 0 s.buf

pub data InvariantError : Type 0 where
  keyless left_of_ideal out_of_order : InvariantError

-- `prev.is_some_and(|prev| k <= prev)`
abbrev pub not_after : Option Bytes → Bytes → Bool
not_after none k = false
not_after (some last) k = leb_bytes k last

module _ (p : Primitives) where
  -- The loop of `check_invariants`, behind a record of the key `last`.
  unfoldable pub check_from :
      ℕ → Option Bytes → List (ℕ × Record) → Result InvariantError (Unit {0})
  check_from bits last [] = ok tt
  check_from bits last ((slot, rec) ∷ rest) = do
    k ← ok_or (key p rec) keyless
    reject (ltb slot (slot_of k bits)) left_of_ideal
    reject (not_after last k) out_of_order
    check_from bits (some k) rest

  unfoldable pub check_invariants : Slice → Result InvariantError (Unit {0})
  unfolding check_from iter
  check_invariants s = check_from s.slice_bits none (iter s)
