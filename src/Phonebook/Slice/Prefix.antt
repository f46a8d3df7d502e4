-- ===== src/Phonebook/Slice/Prefix.antt =====
-- `insert` of src/phonebook.rs on all slots: those before the ideal one stay as they are.
use fgtw.Base.{
  ℕ, zero, suc, ◌+◌, ◌-◌, ◌≤◌, ◌<◌, ◌≡◌, refl, sym, ap, inl, inr, Option, none, some, List, [], ◌∷◌,
  ◌++◌, take, drop, arith, Option-cases,
}
use fgtw.Base.Bytes.{Bytes}
use fgtw.Base.Result.{Result, ok, err}
use fgtw.Primitives.{Primitives}
use fgtw.Phonebook.Keys.{slot_of}
use fgtw.Phonebook.Record.{Record, key}
use fgtw.Phonebook.Slice.{
  SliceError, full, stale_epoch, wrong_slice, no_record, Placed, keep, place,
}
use fgtw.Phonebook.Slice.Run.{IsRun, IsHere, IsAbove, find, above_left}
use fgtw.Phonebook.Slice.Lookup.{occupied}
use fgtw.Phonebook.Slice.Insert.{IsPlaced, IsPacked-nil, keep_lem, place_lem}

-- The slots before the ideal one, and what the walk gave from there on.
abbrev pub put_before : List Record → Result SliceError Placed → Result SliceError Placed
put_before before (ok placed) = ok (record placed { slots = before ++ placed.slots })
put_before before (err e) = err e

put_before-cons :
    (occ : Record) (before : List Record) (out : Result SliceError Placed)
    → put_before (occ ∷ before) out ≡ keep occ (put_before before out)
put_before-cons occ before (ok placed) = refl
put_before-cons occ before (err e) = refl

put_before-nil : (out : Result SliceError Placed) → put_before [] out ≡ out
put_before-nil (ok placed) = refl
put_before-nil (err e) = refl

module _ (p : Primitives) (bits id : ℕ) where
  -- An empty slot in front stays empty.
  keep_free :
      (rec occ : Record) (k : Bytes) (i gap : ℕ) (low : Option Bytes) (rest : List Record)
      (out : Result SliceError Placed)
      → key p occ ≡ none
      → i < slot_of k bits
      → IsPlaced p bits id rec k (suc i) (suc i) low rest out
      → IsPlaced p bits id rec k i gap low (occ ∷ rest) (keep occ out)
  unfolding find occupied
  keep_free rec occ k i gap low rest (ok placed) e less
        (run, same, size, held, newer, (m, at, there)) =
      rw (e, find, occupied, IsRun)
        (run, same, ap suc size, held, newer, (suc m, omega (arith, at), there))
  keep_free rec occ k i gap low rest (err full) e less (missing, packed) =
      let later : slot_of k bits - i ≡ suc (slot_of k bits - suc i) = omega (arith, less) in
      (rw (e, find) missing, rw later packed)
  keep_free rec occ k i gap low rest (err (stale_epoch stored incoming)) e less
        (old, found, st, inc, le) =
      (old, rw (e, find) found, st, inc, le)
  keep_free rec occ k i gap low rest (err (wrong_slice _ _)) e less h = h
  keep_free rec occ k i gap low rest (err no_record) e less h = h

  module _ (fits : bits ≤ 32) (rec : Record) (k : Bytes) (e : key p rec ≡ some k)
      (here : IsHere p bits id k) where
    pub place_from :
        (n i gap : ℕ) (low : Option Bytes) (slots : List Record)
        → IsRun p bits id i gap low slots
        → IsAbove low k
        → gap ≤ i
        → i + n ≡ slot_of k bits
        → IsPlaced p bits id rec k i gap low slots
            (put_before (take n slots) (place p rec k (slot_of k bits) (drop n slots)))
    unfolding place find
    place_from zero i gap low slots h above room there =
        let start : i ≡ slot_of k bits = omega (arith, there) in
        rw (put_before-nil (place p rec k (slot_of k bits) slots), sym start)
          (place_lem p bits id fits rec k e here i gap low slots h above (omega (arith, start))
            (omega (arith, start)))
    place_from (suc n) i gap low [] h above room there =
        (refl, IsPacked-nil p bits id (slot_of k bits - i))
    place_from (suc n) i gap low (occ ∷ rest) h above room there =
        let out = place p rec k (slot_of k bits) (drop n rest) in
        rw (put_before-cons occ (take n rest) out) (elim (Option-cases (key p occ)) [
          | inl free ↦
              keep_free rec occ k i gap low rest (put_before (take n rest) out) free
                (omega (arith, there))
                (place_from n (suc i) (suc i) low rest (rw (free, IsRun) at h) above (omega arith)
                  (omega (arith, there)))
          | inr (j, held) ↦
              let (here', higher, far, near, run) = rw (held, IsRun) at h in
              let before = above_left p bits id fits j k here' here (omega (arith, there, near)) in
              keep_lem p bits id rec occ k j i gap low rest (put_before (take n rest) out) held
                (here', higher, far, near) before
                (place_from n (suc i) gap (some j) rest run before (omega (arith, room))
                  (omega (arith, there)))
        ])
