-- ===== src/Phonebook/Slice/Lookup.antt =====
-- What `lookup` of src/phonebook.rs finds in a slice whose slots are in order.
use fgtw.Base.{
  ℕ, zero, suc, ◌+◌, ◌≤◌, ◌≡◌, refl, sym, inl, inr, false, Option, none, some, List, [], ◌∷◌, drop,
  length, arith, Option-cases, Bool-cases,
}
use fgtw.Base.Bytes.{Bytes, eqb, eqb_iff}
use fgtw.Base.ByteOrder.{leb_bytes, leb_bytes_total, leb_bytes_refl}
use fgtw.Primitives.{Primitives}
use fgtw.Phonebook.Keys.{slice_slots, slot_of}
use fgtw.Phonebook.Record.{Record, key}
use fgtw.Phonebook.Slice.{Slice, scan, lookup, ideal}
use fgtw.Phonebook.Slice.Run.{IsRun, IsHere, find, find_below, find_left, above_left}

abbrev pub record_of : Option (ℕ × Record) → Option Record
record_of none = none
record_of (some (s, rec)) = some rec

-- The occupied slots.
unfoldable pub occupied : (p : Primitives) → List Record → ℕ
occupied p [] = 0
occupied p (rec ∷ rest) = let n = occupied p rest in elim (key p rec) [ none ↦ n | some k ↦ suc n ]

-- What holds of every slice that the operations build.
pub record IsValid (p : Primitives) (s : Slice) : Type 0 where
  pub few_bits : s.slice_bits ≤ 32
  pub slots : length s.buf ≡ slice_slots
  pub run : IsRun p s.slice_bits s.slice_id 0 0 none s.buf
  pub filled : s.fill ≡ occupied p s.buf

pub above-differs : (k j : Bytes) → leb_bytes j k ≡ false → eqb k j ≡ false
above-differs k j gt = elim (Bool-cases (eqb k j)) [
  | inr other ↦ other
  | inl same ↦
      let back : leb_bytes j j ≡ false = rw ((eqb_iff k j).0 same) at gt in
      absurd (ground (arith, leb_bytes_refl j, back))
]

module _ (p : Primitives) (bits id : ℕ) (fits : bits ≤ 32) where
  scan-find :
      (i gap : ℕ) (low : Option Bytes) (j : Bytes) (slots : List Record)
      → IsRun p bits id i gap low slots
      → IsHere p bits id j
      → slot_of j bits ≤ i
      → gap ≤ i
      → record_of (scan p j i slots) ≡ find p j slots
  unfolding scan find
  scan-find i gap low j [] h hj start room = refl
  scan-find i gap low j (rec ∷ rest) h hj start room = elim (Option-cases (key p rec)) [
    | inl e ↦
        rw (e, scan, find)
          (sym (
            find_left p bits id fits (suc i) (suc i) low j rest (rw (e, IsRun) at h) (omega arith)
              (omega arith)))
    | inr (k, e) ↦
        let (here, above, least, most, run) = rw (e, IsRun) at h in
        elim (Bool-cases (eqb k j)) [
          | inl same ↦ rw (e, same, scan, find) refl
          | inr other ↦ elim (Bool-cases (leb_bytes k j)) [
            | inl le ↦
                rw (e, other, le, scan, find)
                  (scan-find (suc i) gap (some k) j rest run hj (omega arith) (omega arith))
            | inr gt ↦
                rw (e, other, gt, scan, find)
                  (sym (find_below p bits id (suc i) gap j k rest run (leb_bytes_total k j gt)))
          ]
        ]
  ]

  skip-find :
      (n i gap : ℕ) (low : Option Bytes) (j : Bytes) (slots : List Record)
      → IsRun p bits id i gap low slots
      → IsHere p bits id j
      → i + n ≡ slot_of j bits
      → gap ≤ i
      → record_of (scan p j (slot_of j bits) (drop n slots)) ≡ find p j slots
  unfolding scan find
  skip-find zero i gap low j slots h hj place room =
      let start : i ≡ slot_of j bits = omega (arith, place) in
      rw (sym start) (scan-find i gap low j slots h hj (omega (arith, start)) room)
  skip-find (suc n) i gap low j [] h hj place room = refl
  skip-find (suc n) i gap low j (rec ∷ rest) h hj place room = elim (Option-cases (key p rec)) [
    | inl e ↦
        rw (e, find)
          (skip-find n (suc i) (suc i) low j rest (rw (e, IsRun) at h) hj (omega (arith, place))
            (omega arith))
    | inr (k, e) ↦
        let (here, above, least, most, run) = rw (e, IsRun) at h in
        let before = above_left p bits id fits k j here hj (omega (arith, place)) in
        let later =
          skip-find n (suc i) gap (some k) j rest run hj (omega (arith, place)) (omega arith) in
        rw (e, find) (ground (arith, later, above-differs k j before))
  ]

-- In a valid slice a lookup finds a record of the slice's keys exactly where one stands.
pub lookup-find :
    (p : Primitives) (s : Slice) (k : Bytes)
    → IsValid p s
    → IsHere p s.slice_bits s.slice_id k
    → record_of (lookup p s k) ≡ find p k s.buf
unfolding lookup ideal
lookup-find p s k ok here =
    skip-find p s.slice_bits s.slice_id ok.few_bits (slot_of k s.slice_bits) 0 0 none k s.buf ok.run
      here (omega arith) (omega arith)
