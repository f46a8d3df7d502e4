-- ===== src/Phonebook/Slice/Run.antt =====
-- The order that the slots of a slice are in, src/phonebook.rs `Slice`: keys rise, no record stands
-- left of its ideal slot, and none stands right of an empty slot that its ideal slot does not follow.
use fgtw.Base.{
  ℕ, suc, ◌≤◌, ◌<◌, ◌≡◌, refl, sym, ◌∙◌, inl, inr, true, false, Option, none, some, List, [], ◌∷◌,
  arith, if◌then◌else◌, Option-cases, Bool-cases,
}
use fgtw.Base.Bytes.{Bytes, eqb, eqb_iff}
use fgtw.Base.ByteOrder.{leb_bytes, leb_bytes_total, leb_bytes_trans}
use fgtw.Primitives.{Primitives}
use fgtw.Phonebook.Keys.{IsKey, slice_of, slot_of}
use fgtw.Phonebook.Order.{slot_of_mono}
use fgtw.Phonebook.Record.{Record, key}

-- The key is greater than the last one.
abbrev pub IsAbove : Option Bytes → Bytes → Type 0
IsAbove none k = Unit {0}
IsAbove (some l) k = leb_bytes k l ≡ false

-- The abstract view: the record that the slots hold under a key, wherever it stands.
unfoldable pub find : (p : Primitives) → Bytes → List Record → Option Record
find p j [] = none
find p j (rec ∷ rest) =
    let later = find p j rest in
    elim (key p rec) [ none ↦ later | some k ↦ if eqb k j then some rec else later ]

pub IsAbove-trans :
    (low : Option Bytes) (l k : Bytes) → IsAbove low l → leb_bytes k l ≡ false → IsAbove low k
IsAbove-trans none l k h above = tt
IsAbove-trans (some m) l k h above = elim (Bool-cases (leb_bytes k m)) [
  | inl le ↦ absurd (ground (arith, leb_bytes_trans l k m (leb_bytes_total k l above) le))
  | inr gt ↦ gt
]

module _ (p : Primitives) (bits id : ℕ) where
  -- A key of the slice.
  abbrev pub IsHere : Bytes → Type 0
  IsHere k = IsKey k × (slice_of k bits ≡ id)

  -- `i` is the number of the first slot, the last empty slot before stands at `gap - 1`, and the
  -- last key before is `low`.
  abbrev pub IsRun : ℕ → ℕ → Option Bytes → List Record → Type 0
  IsRun i gap low [] = Unit {0}
  IsRun i gap low (rec ∷ rest) = elim (key p rec) [
    | none ↦ IsRun (suc i) (suc i) low rest
    | some k ↦
        IsHere k
        × IsAbove low k
        × (gap ≤ slot_of k bits)
        × (slot_of k bits ≤ i)
        × IsRun (suc i) gap (some k) rest
  ]

  -- What is known of the key of an occupied slot.
  abbrev pub IsPut : ℕ → ℕ → Option Bytes → Bytes → Type 0
  IsPut i gap low k = IsHere k × IsAbove low k × (gap ≤ slot_of k bits) × (slot_of k bits ≤ i)

  slot_of-rise :
      (fits : bits ≤ 32) (j k : Bytes)
      → IsHere j
      → IsHere k
      → leb_bytes j k ≡ true
      → slot_of j bits ≤ slot_of k bits
  slot_of-rise fits j k hj hk = slot_of_mono j k bits hj.0 hk.0 fits (hj.1 ∙ sym hk.1)

  -- Of two keys, the one whose ideal slot lies further right is the greater.
  pub above_left :
      (fits : bits ≤ 32) (j k : Bytes)
      → IsHere j
      → IsHere k
      → slot_of j bits < slot_of k bits
      → leb_bytes k j ≡ false
  above_left fits j k hj hk less = elim (Bool-cases (leb_bytes k j)) [
    | inl le ↦ absurd (omega (arith, slot_of-rise fits k j hk hj le))
    | inr gt ↦ gt
  ]

  -- Below all keys there is nothing to find.
  pub find_below :
      (i gap : ℕ) (j l : Bytes) (slots : List Record)
      → IsRun i gap (some l) slots
      → leb_bytes j l ≡ true
      → find p j slots ≡ none
  unfolding find
  find_below i gap j l [] h under = refl
  find_below i gap j l (rec ∷ rest) h under = elim (Option-cases (key p rec)) [
    | inl e ↦ rw (e, find) (find_below (suc i) (suc i) j l rest (rw (e, IsRun) at h) under)
    | inr (k, e) ↦
        let (here, above, low, high, run) = rw (e, IsRun) at h in
        let under' = leb_bytes_trans j l k under (leb_bytes_total k l above) in
        rw (e, find) (ground (arith, find_below (suc i) gap j k rest run under', eqb_iff k j))
  ]

  -- Left of the last empty slot there is nothing to find.
  pub find_left :
      (fits : bits ≤ 32) (i gap : ℕ) (low : Option Bytes) (j : Bytes) (slots : List Record)
      → IsRun i gap low slots
      → slot_of j bits < gap
      → gap ≤ i
      → find p j slots ≡ none
  unfolding find
  find_left fits i gap low j [] h under room = refl
  find_left fits i gap low j (rec ∷ rest) h under room = elim (Option-cases (key p rec)) [
    | inl e ↦
        rw (e, find)
          (find_left fits (suc i) (suc i) low j rest (rw (e, IsRun) at h) (omega arith)
            (omega arith))
    | inr (k, e) ↦
        let (here, above, least, most, run) = rw (e, IsRun) at h in
        rw (e, find)
          (ground (
            arith,
            find_left fits (suc i) gap (some k) j rest run under (omega arith),
            eqb_iff k j,
          ))
  ]

  -- A bound below all keys may be put in place of the last key.
  pub IsRun-low :
      (i gap : ℕ) (l : Bytes) (low : Option Bytes) (slots : List Record)
      → IsRun i gap (some l) slots
      → IsAbove low l
      → IsRun i gap low slots
  IsRun-low i gap l low [] h above = tt
  IsRun-low i gap l low (rec ∷ rest) h above = elim (Option-cases (key p rec)) [
    | inl e ↦ rw (e, IsRun) (IsRun-low (suc i) (suc i) l low rest (rw (e, IsRun) at h) above)
    | inr (k, e) ↦
        let (here, higher, least, most, run) = rw (e, IsRun) at h in
        rw (e, IsRun) (here, IsAbove-trans low l k above higher, least, most, run)
  ]

  -- An earlier gap bounds less.
  pub IsRun-gap :
      (i gap g : ℕ) (low : Option Bytes) (slots : List Record)
      → IsRun i gap low slots
      → g ≤ gap
      → IsRun i g low slots
  IsRun-gap i gap g low [] h le = tt
  IsRun-gap i gap g low (rec ∷ rest) h le = elim (Option-cases (key p rec)) [
    | inl e ↦ rw (e, IsRun) (rw (e, IsRun) at h)
    | inr (k, e) ↦
        let (here, above, least, most, run) = rw (e, IsRun) at h in
        rw (e, IsRun) (here, above, omega arith, most, IsRun-gap (suc i) gap g (some k) rest run le)
  ]

  -- A key whose slot lies left of the gap may stand as the last key.
  pub IsRun-under :
      (fits : bits ≤ 32) (i gap : ℕ) (low : Option Bytes) (j : Bytes) (slots : List Record)
      → IsHere j
      → IsRun i gap low slots
      → slot_of j bits < gap
      → gap ≤ i
      → IsRun i gap (some j) slots
  IsRun-under fits i gap low j [] hj h under room = tt
  IsRun-under fits i gap low j (rec ∷ rest) hj h under room = elim (Option-cases (key p rec)) [
    | inl e ↦
        rw (e, IsRun)
          (IsRun-under fits (suc i) (suc i) low j rest hj (rw (e, IsRun) at h) (omega arith)
            (omega arith))
    | inr (k, e) ↦
        let (here, above, least, most, run) = rw (e, IsRun) at h in
        rw (e, IsRun) (here, above_left fits j k hj here (omega arith), least, most, run)
  ]

  -- From the slots that follow a key on, no gap lies behind its ideal slot.
  pub IsRun-raise :
      (fits : bits ≤ 32) (i gap g : ℕ) (k : Bytes) (slots : List Record)
      → IsHere k
      → IsRun i gap (some k) slots
      → g ≤ slot_of k bits
      → IsRun i g (some k) slots
  IsRun-raise fits i gap g k [] hk h le = tt
  IsRun-raise fits i gap g k (rec ∷ rest) hk h le = elim (Option-cases (key p rec)) [
    | inl e ↦ rw (e, IsRun) (rw (e, IsRun) at h)
    | inr (j, e) ↦
        let (here, above, least, most, run) = rw (e, IsRun) at h in
        let right = slot_of-rise fits k j hk here (leb_bytes_total j k above) in
        rw (e, IsRun)
          (
            here,
            above,
            omega arith,
            most,
            IsRun-raise fits (suc i) gap g j rest here run (omega arith),
          )
  ]
