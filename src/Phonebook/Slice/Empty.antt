-- ===== src/Phonebook/Slice/Empty.antt =====
-- A slice of src/phonebook.rs as `new` makes it.
use fgtw.Base.{ℕ, zero, suc, ◌≤◌, ◌≡◌, refl, ap, Option, none, List, replicate, length, arith}
use fgtw.Primitives.{Primitives}
use fgtw.Phonebook.Keys.{slice_slots}
use fgtw.Phonebook.Record.{Record, empty_record}
use fgtw.Phonebook.Slice.{new_slice}
use fgtw.Phonebook.Slice.Run.{IsRun}
use fgtw.Phonebook.Slice.Lookup.{IsValid, occupied}
use fgtw.Phonebook.Slice.Remove.{key-empty_record}

length-replicate : (n : ℕ) (rec : Record) → length (replicate n rec) ≡ n
length-replicate zero rec = refl
length-replicate (suc n) rec = ap suc (length-replicate n rec)

replicate-IsRun :
    (p : Primitives) (bits id n i gap : ℕ) (low : Option (List ℕ))
    → IsRun p bits id i gap low (replicate n empty_record)
replicate-IsRun p bits id zero i gap low = tt
replicate-IsRun p bits id (suc n) i gap low =
    rw (key-empty_record p, IsRun) (replicate-IsRun p bits id n (suc i) (suc i) low)

occupied-replicate : (p : Primitives) (n : ℕ) → occupied p (replicate n empty_record) ≡ 0
unfolding occupied
occupied-replicate p zero = refl
occupied-replicate p (suc n) = rw (key-empty_record p, occupied) (occupied-replicate p n)

-- A new slice is valid, at a width that its keys have.
pub new_slice-IsValid : (p : Primitives) (bits id : ℕ) → bits ≤ 32 → IsValid p (new_slice bits id)
unfolding new_slice
new_slice-IsValid p bits id fits = record {
  few_bits = fits;
  slots = length-replicate slice_slots empty_record;
  run = replicate-IsRun p bits id slice_slots 0 0 none;
  filled = omega (arith, occupied-replicate p slice_slots);
}
