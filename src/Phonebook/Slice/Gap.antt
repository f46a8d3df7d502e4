-- ===== src/Phonebook/Slice/Gap.antt =====
-- What src/phonebook.rs `insert` does where it makes room: the run up to the next gap moves right.
use fgtw.Base.{
  ℕ, suc, ◌≤◌, ◌≡◌, refl, ap, inl, inr, true, false, Option, none, some, List, [], ◌∷◌, length,
  arith, if◌then◌else◌, Option-cases,
}
use fgtw.Base.Bytes.{Bytes, eqb}
use fgtw.Primitives.{Primitives}
use fgtw.Phonebook.Record.{Record, key, is_empty_record}
use fgtw.Phonebook.Slice.{close_gap}
use fgtw.Phonebook.Slice.Run.{IsRun, IsPut, find, IsRun-gap}
use fgtw.Phonebook.Slice.Lookup.{occupied}

module _ (p : Primitives) (rec : Record) where
  pub keyless-is_empty : key p rec ≡ none → is_empty_record rec ≡ true
  unfolding key is_empty_record
  keyless-is_empty e = ground arith

  pub keyed-is_empty : (k : Bytes) → key p rec ≡ some k → is_empty_record rec ≡ false
  unfolding key is_empty_record
  keyed-is_empty k e = ground arith

module _ (p : Primitives) (bits id : ℕ) where
  -- What closing a gap does: the records move one slot right.
  abbrev pub IsClosed : ℕ → ℕ → Option Bytes → List Record → Option (List Record) → Type 0
  IsClosed i gap low slots none = occupied p slots ≡ length slots
  IsClosed i gap low slots (some moved) =
      IsRun p bits id (suc i) gap low moved
      × ((j : Bytes) → find p j moved ≡ find p j slots)
      × (suc (length moved) ≡ length slots)
      × (occupied p moved ≡ occupied p slots)

  -- The record in front of the gap moves too.
  carry :
      (i gap : ℕ) (low : Option Bytes) (occ : Record) (rest : List Record) (k : Bytes)
      (out : Option (List Record))
      → key p occ ≡ some k
      → IsPut p bits id i gap low k
      → IsClosed (suc i) gap (some k) rest out
      → IsClosed i gap low (occ ∷ rest) (elim out [ none ↦ none | some moved ↦ some (occ ∷ moved) ])
  unfolding find occupied
  carry i gap low occ rest k none e put all = rw (e, occupied) (ap suc all)
  carry i gap low occ rest k (some moved) e (here, above, least, most) (run, same, size, held) =
      rw (e, find, occupied, IsRun)
        (
          (here, above, least, omega arith, run),
          λ j. ap (λ later. if eqb k j then some occ else later) (same j),
          ap suc size,
          ap suc held,
        )

  pub close_gap_lem :
      (i gap : ℕ) (low : Option Bytes) (slots : List Record)
      → IsRun p bits id i gap low slots
      → gap ≤ i
      → IsClosed i gap low slots (close_gap slots)
  unfolding close_gap find occupied
  close_gap_lem i gap low [] h room = refl
  close_gap_lem i gap low (occ ∷ rest) h room = elim (Option-cases (key p occ)) [
    | inl e ↦
        rw (keyless-is_empty p occ e, e, find, occupied)
          (
            IsRun-gap p bits id (suc i) (suc i) gap low rest (rw (e, IsRun) at h) (omega arith),
            λ j. refl,
            refl,
            refl,
          )
    | inr (k, e) ↦
        let (here, above, least, most, run) = rw (e, IsRun) at h in
        rw (keyed-is_empty p occ k e) (
          carry i gap low occ rest k (close_gap rest) e (here, above, least, most)
            (close_gap_lem (suc i) gap (some k) rest run (omega arith)))
  ]
