-- ===== src/Phonebook/Slice/Remove.antt =====
-- What `remove` of src/phonebook.rs does to the slots: the run behind the freed slot moves left, as
-- far as ideal slots allow.
use fgtw.Base.{
  ℕ, zero, suc, ◌+◌, ◌≤◌, ◌≡◌, refl, ap, inl, inr, false, Option, none, some, List, [], ◌∷◌, ◌++◌,
  take, drop, length, get_elem?, ltb, arith, if◌then◌else◌, Option-cases, Bool-cases,
}
use fgtw.Base.Bytes.{Bytes, eqb, eqb_iff}
use fgtw.Base.ByteOrder.{leb_bytes, leb_bytes_refl}
use fgtw.Primitives.{Primitives}
use fgtw.Phonebook.Keys.{slot_of}
use fgtw.Phonebook.Record.{Record, key, kind, from_byte, empty_record}
use fgtw.Phonebook.Slice.{scan, pull}
use fgtw.Phonebook.Slice.Run.{IsRun, IsAbove-trans, find, find_below, IsRun-low, IsRun-raise}
use fgtw.Phonebook.Slice.Lookup.{occupied, above-differs}

pub key-empty_record : (p : Primitives) → key p empty_record ≡ none
unfolding key kind from_byte empty_record
key-empty_record p = refl

-- A lookup's answer stands in the slot it names.
pub scan-get_elem? :
    (p : Primitives) (j : Bytes) (i : ℕ) (slots : List Record) {w : ℕ} {rec : Record}
    → scan p j i slots ≡ some (w, rec)
    → (m : ℕ) × (w ≡ i + m) × (get_elem? slots m ≡ some rec) × (key p rec ≡ some j)
unfolding scan
scan-get_elem? p j i [] e = cc
scan-get_elem? p j i (occ ∷ rest) e = elim (Option-cases (key p occ)) [
  | inl free ↦ absurd (ground (arith, free))
  | inr (k, held) ↦ elim (Bool-cases (eqb k j)) [
    | inl same ↦ (
      0,
      ground (arith, held, same),
      ground (arith, held, same),
      ground (arith, held, same, eqb_iff k j),
    )
    | inr other ↦ elim (Bool-cases (leb_bytes k j)) [
      | inl le ↦
          let later = rw (held, other, le, scan) at e in
          let (m, at, there, keyed) = scan-get_elem? p j (suc i) rest later in
          (suc m, omega (arith, at), there, keyed)
      | inr gt ↦ absurd (ground (arith, held, other, gt))
    ]
  ]
]

module _ (p : Primitives) (bits id : ℕ) (fits : bits ≤ 32) where
  -- The slots from the freed one on, against the slots behind it.
  abbrev IsPulled : ℕ → ℕ → Option Bytes → List Record → List Record → Type 0
  IsPulled i gap low rest out =
      IsRun p bits id i gap low out
      × ((t : Bytes) → find p t out ≡ find p t rest)
      × (length out ≡ suc (length rest))
      × (occupied p out ≡ occupied p rest)

  freed :
      (i gap : ℕ) (low : Option Bytes) (rest : List Record)
      → IsRun p bits id (suc i) (suc i) low rest
      → IsPulled i gap low rest (empty_record ∷ rest)
  unfolding find occupied
  freed i gap low rest h = (
    rw (key-empty_record p, IsRun) h,
    λ t. rw (key-empty_record p, find) refl,
    refl,
    rw (key-empty_record p, occupied) refl,
  )

  pull_lem :
      (i gap : ℕ) (low : Option Bytes) (rest : List Record)
      → IsRun p bits id (suc i) gap low rest
      → gap ≤ i
      → IsPulled i gap low rest (pull p bits i rest)
  unfolding pull find occupied
  pull_lem i gap low [] h room = freed i gap low [] tt
  pull_lem i gap low (rec ∷ rest) h room = elim (Option-cases (key p rec)) [
    | inl free ↦
        let run = rw (free, IsRun) at h in
        rw (free, pull) (freed i gap low (rec ∷ rest) (rw (free, IsRun) run))
    | inr (k, held) ↦
        let (here, above, least, most, run) = rw (held, IsRun) at h in
        elim (Bool-cases (ltb i (slot_of k bits))) [
          | inl stays ↦
              let right : suc i ≤ slot_of k bits = ground arith in
              let raised =
                IsRun-raise p bits id fits (suc (suc i)) gap (suc i) k rest here run right in
              rw (held, stays, pull)
                (freed i gap low (rec ∷ rest) (rw (held, IsRun) (here, above, right, most, raised)))
          | inr moves ↦
              let left : slot_of k bits ≤ i = ground arith in
              let (run', same, size, filled) =
                pull_lem (suc i) gap (some k) rest run (omega arith) in
              rw (held, moves, pull)
                (
                  rw (held, IsRun) (here, above, least, left, run'),
                  λ t. rw (held, find) (ap (λ o. if eqb k t then some rec else o) (same t)),
                  ap suc size,
                  rw (held, occupied) (ap suc filled),
                )
        ]
  ]

  -- The last key in front is smaller than any that is held behind.
  IsAbove-get_elem? :
      (m i gap : ℕ) (l j : Bytes) (slots : List Record) {rec : Record}
      → IsRun p bits id i gap (some l) slots
      → get_elem? slots m ≡ some rec
      → key p rec ≡ some j
      → leb_bytes j l ≡ false
  IsAbove-get_elem? m i gap l j [] h there keyed = cc
  IsAbove-get_elem? zero i gap l j (occ ∷ rest) h there keyed =
      let held : key p occ ≡ some j = cc in
      let (here, above, least, most, run) = rw (held, IsRun) at h in above
  IsAbove-get_elem? (suc m) i gap l j (occ ∷ rest) h there keyed = elim (Option-cases (key p occ)) [
    | inl free ↦ IsAbove-get_elem? m (suc i) (suc i) l j rest (rw (free, IsRun) at h) there keyed
    | inr (k, held) ↦
        let (here, above, least, most, run) = rw (held, IsRun) at h in
        IsAbove-trans (some l) k j above (IsAbove-get_elem? m (suc i) gap k j rest run there keyed)
  ]

  -- A slice's slots without the record at `m`: the order kept, the other keys as before.
  abbrev pub IsRemoved : ℕ → ℕ → Option Bytes → Bytes → List Record → List Record → Type 0
  IsRemoved i gap low j slots out =
      IsRun p bits id i gap low out
      × ((t : Bytes) → find p t out ≡ (if eqb j t then none else find p t slots))
      × (length out ≡ length slots)
      × (suc (occupied p out) ≡ occupied p slots)

  pub remove_at :
      (m i gap : ℕ) (low : Option Bytes) (j : Bytes) (slots : List Record) {rec : Record}
      → IsRun p bits id i gap low slots
      → gap ≤ i
      → get_elem? slots m ≡ some rec
      → key p rec ≡ some j
      → IsRemoved i gap low j slots (take m slots ++ pull p bits (i + m) (drop (suc m) slots))
  unfolding find occupied
  remove_at m i gap low j [] h room there keyed = cc
  remove_at zero i gap low j (occ ∷ rest) h room there keyed =
      let held : key p occ ≡ some j = cc in
      let (here, above, least, most, run) = rw (held, IsRun) at h in
      let sunk = IsRun-low p bits id (suc i) gap j low rest run above in
      let start : i + 0 ≡ i = omega arith in
      let (run', same, size, filled) = pull_lem i gap low rest sunk room in
      rw start
        (run', λ t. rw (held, find) (absent t (same t)), size, rw (held, occupied) (ap suc filled))
    where
      absent :
          (t : Bytes)
          → find p t (pull p bits i rest) ≡ find p t rest
          → find p t (pull p bits i rest)
            ≡ (if eqb j t then none else (if eqb j t then some occ else find p t rest))
      absent t same =
          let held : key p occ ≡ some j = cc in
          let (here, above, least, most, run) = rw (held, IsRun) at h in
          let missing : find p j rest ≡ none =
            find_below p bits id (suc i) gap j j rest run (leb_bytes_refl j) in
          ground (arith, same, eqb_iff j t, missing)
  remove_at (suc m) i gap low j (occ ∷ rest) h room there keyed =
      let next : i + suc m ≡ suc i + m = omega arith in
      elim (Option-cases (key p occ)) [
        | inl free ↦
            let (run, same, size, filled) =
              remove_at m (suc i) (suc i) low j rest (rw (free, IsRun) at h) (omega arith) there
                keyed in
            rw next (
              rw (free, IsRun) run,
              λ t. rw (free, find) (same t),
              ap suc size,
              rw (free, occupied) filled,
            )
        | inr (k, held) ↦
            let (here, above, least, most, run) = rw (held, IsRun) at h in
            let over = IsAbove-get_elem? m (suc i) gap k j rest run there keyed in
            let (run', same, size, filled) =
              remove_at m (suc i) gap (some k) j rest run (omega arith) there keyed in
            rw next (
              rw (held, IsRun) (here, above, least, most, run'),
              λ t.
                  rw (held, find)
                    (ground (
                      arith,
                      same t,
                      above-differs k j over,
                      eqb_iff k t,
                      eqb_iff j t,
                      eqb_iff k j,
                    )),
              ap suc size,
              rw (held, occupied) (ap suc filled),
            )
      ]
