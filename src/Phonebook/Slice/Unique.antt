-- ===== src/Phonebook/Slice/Unique.antt =====
-- Slices of src/phonebook.rs leave no trace of their past: the records held settle every slot.
use fgtw.Base.{
  ℕ, suc, ◌≤◌, ◌≡◌, refl, sym, ap, ◌≢◌, subst, ◌∙◌, inl, inr, true, false, Option, none, some, List,
  [], ◌∷◌, map, length, arith, if◌then◌else◌, Option-cases, Bool-cases,
}
use fgtw.Base.Bytes.{Bytes, eqb, eqb_iff, eqb_refl}
use fgtw.Base.ByteOrder.{leb_bytes, leb_bytes_refl, leb_bytes_antisym, leb_bytes_total}
use fgtw.Base.Result.{ok}
use fgtw.Primitives.{Primitives, DigestBytes}
use fgtw.Phonebook.Keys.{slot_of}
use fgtw.Phonebook.Record.{Record, key}
use fgtw.Phonebook.Slice.{Slice, insert, remove}
use fgtw.Phonebook.Slice.Run.{IsHere, IsRun, find, find_left, find_below}
use fgtw.Phonebook.Slice.Lookup.{IsValid, above-differs}
use fgtw.Phonebook.Slice.Outcome.{IsInserted, insert-IsInserted}
use fgtw.Phonebook.Slice.Refine.{remove-IsWithout}

-- What a slot holds: no key, or a record.
unfoldable pub occupant : (p : Primitives) → Record → Option Record
occupant p rec = elim (key p rec) [ none ↦ none | some k ↦ some rec ]

some-injective : {a b : Record} → Option.some a ≡ some b → a ≡ b
some-injective e = cc

module _ (p : Primitives) (bits id : ℕ) (fits : bits ≤ 32) where
  -- Behind its key a record is not found again.
  find_behind :
      (i gap : ℕ) (k : Bytes) (rest : List Record)
      → IsRun p bits id i gap (some k) rest
      → find p k rest ≡ none
  find_behind i gap k rest h = find_below p bits id i gap k k rest h (leb_bytes_refl k)

  find-free :
      (j : Bytes) (x : Record) (xs : List Record) → key p x ≡ none → find p j (x ∷ xs) ≡ find p j xs
  unfolding find
  find-free j x xs e = rw (e, find) refl

  find-held :
      (j k : Bytes) (x : Record) (xs : List Record)
      → key p x ≡ some k
      → find p j (x ∷ xs) ≡ (if eqb k j then some x else find p j xs)
  unfolding find
  find-held j k x xs e = rw (e, find) refl

  find-first :
      (k : Bytes) (x : Record) (xs : List Record) → key p x ≡ some k → find p k (x ∷ xs) ≡ some x
  find-first k x xs e = find-held k k x xs e ∙ rw (eqb_refl k) refl

  -- Where one run is empty and the other is not, they hold different records.
  uneven :
      (i : ℕ) (low : Option Bytes) (x y : Record) (xs ys : List Record) (k : Bytes)
      → key p x ≡ none
      → key p y ≡ some k
      → IsRun p bits id (suc i) (suc i) low xs
      → slot_of k bits ≤ i
      → find p k (x ∷ xs) ≢ find p k (y ∷ ys)
  uneven i low x y xs ys k free held run most same =
      let missing =
        find_left p bits id fits (suc i) (suc i) low k xs run (omega arith) (omega arith) in
      absurd (ground (arith, same, find-free k x xs free, missing, find-first k y ys held))

  -- A smaller key in front of one run is in no other.
  no_less :
      (i gap : ℕ) (x y : Record) (xs ys : List Record) (j k : Bytes)
      → key p x ≡ some j
      → key p y ≡ some k
      → IsRun p bits id i gap (some k) ys
      → find p j (x ∷ xs) ≡ find p j (y ∷ ys)
      → leb_bytes k j ≡ true
  no_less i gap x y xs ys j k held held' run same = elim (Bool-cases (leb_bytes k j)) [
    | inl le ↦ le
    | inr gt ↦
        let missing = find_below p bits id i gap j k ys run (leb_bytes_total k j gt) in
        let other : eqb k j ≡ false =
          ground (arith, above-differs j k gt, eqb_iff j k, eqb_iff k j) in
        absurd
          (ground (arith, same, find-first j x xs held, find-held j k y ys held', missing, other))
  ]

  rest_same :
      (i gap : ℕ) (x y : Record) (xs ys : List Record) (j k : Bytes)
      → key p x ≡ some j
      → key p y ≡ some k
      → j ≡ k
      → IsRun p bits id (suc i) gap (some j) xs
      → IsRun p bits id (suc i) gap (some k) ys
      → (t : Bytes) → find p t (x ∷ xs) ≡ find p t (y ∷ ys)
      → find p t xs ≡ find p t ys
  rest_same i gap x y xs ys j k held held' one run run' t same = elim (Bool-cases (eqb j t)) [
    | inl here ↦
        let same_key : j ≡ t = (eqb_iff j t).0 here in
        let missing = find_behind (suc i) gap j xs run in
        let missing' = find_behind (suc i) gap k ys run' in
        subst (λ u. find p u xs ≡ find p u ys) same_key (missing ∙ sym (rw one missing'))
    | inr other ↦
        let other' : eqb k t ≡ false = rw one at other in
        ground (arith, same, find-held t j x xs held, find-held t k y ys held', other, other')
  ]

  occupants :
      (i gap : ℕ) (low low' : Option Bytes) (xs ys : List Record)
      → IsRun p bits id i gap low xs
      → IsRun p bits id i gap low' ys
      → gap ≤ i
      → length xs ≡ length ys
      → ((j : Bytes) → find p j xs ≡ find p j ys)
      → map (occupant p) xs ≡ map (occupant p) ys
  unfolding find occupant
  occupants i gap low low' [] [] h g room size same = refl
  occupants i gap low low' [] (y ∷ ys) h g room size same = absurd (omega (arith, size))
  occupants i gap low low' (x ∷ xs) [] h g room size same = absurd (omega (arith, size))
  occupants i gap low low' (x ∷ xs) (y ∷ ys) h g room size same = elim (Option-cases (key p x)) [
    | inl free ↦ elim (Option-cases (key p y)) [
      | inl free' ↦
          let later =
            occupants (suc i) (suc i) low low' xs ys (rw (free, IsRun) at h)
              (rw (free', IsRun) at g) (omega arith) (omega (arith, size))
              (λ j. sym (find-free j x xs free) ∙ (same j ∙ find-free j y ys free')) in
          rw (free, free', occupant) (ap (◌∷◌ none) later)
      | inr (k, held) ↦
          let (here, above, least, most, run) = rw (held, IsRun) at g in
          absurd (uneven i low x y xs ys k free held (rw (free, IsRun) at h) most (same k))
    ]
    | inr (j, held) ↦
        let (here, above, least, most, run) = rw (held, IsRun) at h in
        elim (Option-cases (key p y)) [
          | inl free' ↦
              absurd
                (uneven i low' y x ys xs j free' held (rw (free', IsRun) at g) most (sym (same j)))
          | inr (k, held') ↦
              let (here', above', least', most', run') = rw (held', IsRun) at g in
              let up = no_less (suc i) gap x y xs ys j k held held' run' (same j) in
              let down = no_less (suc i) gap y x ys xs k j held' held run (sym (same k)) in
              let one : j ≡ k = (eqb_iff j k).0 (leb_bytes_antisym j k down up) in
              let record_same : x ≡ y =
                some-injective
                  (sym (find-first j x xs held) ∙ (same j ∙ find-first j y ys (rw one held'))) in
              let later =
                occupants (suc i) gap (some j) (some k) xs ys run run' (omega arith)
                  (omega (arith, size))
                  (λ t. rest_same i gap x y xs ys j k held held' one run run' t (same t)) in
              rw (held, held', record_same, occupant) (ap (◌∷◌ (some y)) later)
        ]
  ]

-- Two valid slices of one place that find the same records hold them in the same slots.
pub slots_unique :
    (p : Primitives) (s t : Slice)
    → IsValid p s
    → IsValid p t
    → s.slice_bits ≡ t.slice_bits
    → s.slice_id ≡ t.slice_id
    → ((j : Bytes) → find p j s.buf ≡ find p j t.buf)
    → map (occupant p) s.buf ≡ map (occupant p) t.buf
slots_unique p s t valid valid' bits id same =
    occupants p s.slice_bits s.slice_id valid.few_bits 0 0 none none s.buf t.buf valid.run
      (rw (bits, id) valid'.run) (omega arith) (valid.slots ∙ sym valid'.slots) same

-- A record of a key that a valid slice did not have, inserted and then removed, leaves every slot
-- with what it held before.
pub remove-insert :
    (p : Primitives) (s s' : Slice) (rec : Record) (slot : ℕ) (k : Bytes)
    → DigestBytes p
    → IsValid p s
    → key p rec ≡ some k
    → find p k s.buf ≡ none
    → insert p s rec ≡ ok (slot, s')
    → map (occupant p) (remove p s' k).0.buf ≡ map (occupant p) s.buf
remove-insert p s s' rec slot k digest valid e missing done =
    let (k', e', home, valid', bits, id, same, at, newer) =
      subst (IsInserted p s rec) done (insert-IsInserted p s rec digest valid) in
    let one : k' ≡ k = cc in
    let here : IsHere p s'.slice_bits s'.slice_id k = rw (bits, id, sym one) home in
    let (valid'', bits', id', same', gone) = remove-IsWithout p s' k valid' here in
    slots_unique p (remove p s' k).0 s valid'' valid (bits' ∙ bits) (id' ∙ id)
      (λ j. ground (arith, same j, same' j, one, missing, eqb_iff k j))
