-- ===== src/Phonebook/Slice/Insert.antt =====
-- What `insert` of src/phonebook.rs does to the slots from the ideal one on.
use fgtw.Base.{
  ℕ, zero, suc, ◌+◌, ◌-◌, ◌≤◌, ◌≡◌, refl, sym, ap, subst, inl, inr, Bool, true, false, Option, none,
  some, List, [], ◌∷◌, drop, ltb, length, get_elem?, arith, if◌then◌else◌, Option-cases, Bool-cases,
}
use fgtw.Base.Bytes.{Bytes, eqb, eqb_iff}
use fgtw.Base.ByteOrder.{leb_bytes, leb_bytes_total, leb_bytes_antisym}
use fgtw.Base.Int.{leb_ℤ}
use fgtw.Base.Result.{Result, ok, err}
use fgtw.Primitives.{Primitives}
use fgtw.Phonebook.Keys.{slot_of}
use fgtw.Phonebook.Record.{Record, key, epoch}
use fgtw.Phonebook.Slice.{
  Placed, SliceError, full, stale_epoch, wrong_slice, no_record, keep, drop_in, close_gap, place,
}
use fgtw.Phonebook.Slice.Run.{
  IsRun, IsPut, IsHere, IsAbove, find, find_below, find_left, IsRun-gap, IsRun-under,
}
use fgtw.Phonebook.Slice.Gap.{IsClosed, close_gap_lem}
use fgtw.Phonebook.Slice.Lookup.{occupied, above-differs}

-- The slot reported is the one that holds the record.
abbrev pub IsAt : ℕ → Record → Placed → Type 0
IsAt i rec placed = (m : ℕ) × (placed.slot ≡ i + m) × (get_elem? placed.slots m ≡ some rec)

-- What was held under the key: nothing where the fill grows, an older record where it does not.
abbrev pub Advances : Record → Option Record → Bool → Type 0
Advances rec none grew = grew ≡ true
Advances rec (some old) grew = (grew ≡ false) × (leb_ℤ (epoch rec) (epoch old) ≡ false)

abbrev pub grown : Bool → ℕ → ℕ
grown true n = suc n
grown false n = n

grown-suc : (grew : Bool) (m n : ℕ) → m ≡ grown grew n → suc m ≡ grown grew (suc n)
grown-suc true m n h = ap suc h
grown-suc false m n h = ap suc h

module _ (p : Primitives) (bits id : ℕ) where
  -- From a slot on, no slot is empty.
  abbrev pub IsPacked : ℕ → List Record → Type 0
  IsPacked n slots = occupied p (drop n slots) ≡ length (drop n slots)

  pub IsPacked-nil : (n : ℕ) → IsPacked n []
  unfolding occupied
  IsPacked-nil zero = refl
  IsPacked-nil (suc n) = refl

  IsPacked-keep :
      (occ : Record) (j : Bytes) (rest : List Record) (m i : ℕ)
      → key p occ ≡ some j
      → IsPacked (m - suc i) rest
      → IsPacked (m - i) (occ ∷ rest)
  unfolding occupied
  IsPacked-keep occ j rest m i e packed = elim (Bool-cases (ltb i m)) [
    | inl less ↦ let later : m - i ≡ suc (m - suc i) = ground arith in rw later packed
    | inr over ↦
        let none_left : m - i ≡ 0 = ground arith in
        let none_left' : m - suc i ≡ 0 = ground arith in
        let all : occupied p rest ≡ length rest = rw none_left' at packed in
        rw (none_left, e, occupied) (ap suc all)
  ]

  -- What `place` gives: an order kept and a record put, or the reason for the refusal.
  abbrev pub IsPlaced :
      Record → Bytes → ℕ → ℕ → Option Bytes → List Record → Result SliceError Placed → Type 0
  IsPlaced rec k i gap low slots (ok placed) =
      IsRun p bits id i gap low placed.slots
      × ((j : Bytes) → find p j placed.slots ≡ (if eqb k j then some rec else find p j slots))
      × (length placed.slots ≡ length slots)
      × (occupied p placed.slots ≡ grown placed.grew (occupied p slots))
      × Advances rec (find p k slots) placed.grew
      × IsAt i rec placed
  IsPlaced rec k i gap low slots (err full) =
      (find p k slots ≡ none) × IsPacked (slot_of k bits - i) slots
  IsPlaced rec k i gap low slots (err (stale_epoch stored incoming)) =
      (old : Record) × (find p k slots ≡ some old)
      × (stored ≡ epoch old)
      × (incoming ≡ epoch rec)
      × (leb_ℤ (epoch rec) (epoch old) ≡ true)
  IsPlaced rec k i gap low slots (err (wrong_slice e g)) = true ≡ false
  IsPlaced rec k i gap low slots (err no_record) = true ≡ false

  -- A smaller key in front stays there.
  pub keep_lem :
      (rec occ : Record) (k j : Bytes) (i gap : ℕ) (low : Option Bytes) (rest : List Record)
      (out : Result SliceError Placed)
      → key p occ ≡ some j
      → IsPut p bits id i gap low j
      → leb_bytes k j ≡ false
      → IsPlaced rec k (suc i) gap (some j) rest out
      → IsPlaced rec k i gap low (occ ∷ rest) (keep occ out)
  unfolding find occupied
  keep_lem rec occ k j i gap low rest (ok placed) e (here, above, least, most) before
        (run, same, size, held, newer, (m, at, there)) =
      let other = above-differs j k before in
      rw (e, other, find, occupied, IsRun)
        (
          (here, above, least, most, run),
          λ t. passes t,
          ap suc size,
          grown-suc placed.grew (occupied p placed.slots) (occupied p rest) held,
          newer,
          (suc m, omega (arith, at), there),
        )
    where
      passes :
          (t : Bytes)
          → (if eqb j t then some occ else find p t placed.slots)
            ≡ (if eqb k t then some rec else (if eqb j t then some occ else find p t rest))
      passes t =
          ground (arith, same t, above-differs j k before, eqb_iff j t, eqb_iff k t, eqb_iff j k)
  keep_lem rec occ k j i gap low rest (err full) e put before (missing, packed) = (
    rw (e, above-differs j k before, find) missing,
    IsPacked-keep occ j rest (slot_of k bits) i e packed,
  )
  keep_lem rec occ k j i gap low rest (err (stale_epoch stored incoming)) e put before
        (old, found, st, inc, le) =
      rw (e, above-differs j k before, find) (old, found, st, inc, le)
  keep_lem rec occ k j i gap low rest (err (wrong_slice _ _)) e put before h = h
  keep_lem rec occ k j i gap low rest (err no_record) e put before h = h

  -- A larger key in front, and the run behind it, make room.
  drop_in_lem :
      (rec occ : Record) (k j : Bytes) (i gap : ℕ) (low : Option Bytes) (rest : List Record)
      (out : Option (List Record))
      → key p rec ≡ some k
      → IsPut p bits id i gap low k
      → find p k (occ ∷ rest) ≡ none
      → IsClosed p bits id i gap (some k) (occ ∷ rest) out
      → IsPlaced rec k i gap low (occ ∷ rest) (drop_in i rec out)
  unfolding find occupied
  drop_in_lem rec occ k j i gap low rest none e (here, above, least, most) missing packed =
      let start : slot_of k bits - i ≡ 0 = omega (arith, most) in (missing, rw start packed)
  drop_in_lem rec occ k j i gap low rest (some moved) e (here, above, least, most) missing
        (run, same, size, held) =
      let put = drop_in i rec (some moved) in
      (
        rw (e, IsRun) (here, above, least, most, run),
        λ t. rw (e, find) (ap (λ later. if eqb k t then some rec else later) (same t)),
        size,
        rw (e, occupied) (ap suc held),
        subst (λ o. Advances rec o true) (sym missing) refl,
        (0, omega arith, refl),
      )

  module _ (fits : bits ≤ 32) (rec : Record) (k : Bytes) (e : key p rec ≡ some k)
      (here : IsHere p bits id k) where
    -- A record of the same key gives way to a later one.
    same_lem :
        (i gap : ℕ) (low : Option Bytes) (occ : Record) (rest : List Record) (j : Bytes)
        → key p occ ≡ some j
        → eqb j k ≡ true
        → IsPut p bits id i gap low j
        → IsRun p bits id (suc i) gap (some j) rest
        → IsPlaced rec k i gap low (occ ∷ rest) (place p rec k i (occ ∷ rest))
    unfolding place find occupied
    same_lem i gap low occ rest j held same (there, higher, far, near) run =
        let one : j ≡ k = (eqb_iff j k).0 same in
        let found : find p k (occ ∷ rest) ≡ some occ = rw (held, same, find) refl in
        let e' : key p rec ≡ some j = rw one e in
        elim (Bool-cases (leb_ℤ (epoch rec) (epoch occ))) [
          | inl stale ↦ rw (held, same, stale, place) (occ, found, refl, refl, stale)
          | inr newer ↦
              rw (held, same, newer, e', place, IsRun)
                (
                  (there, higher, far, near, run),
                  λ t. rw (held, e', sym one, find) (ground arith),
                  refl,
                  rw (held, e', occupied) refl,
                  subst (λ o. Advances rec o false) (sym found) (refl, newer),
                  (0, omega arith, refl),
                )
        ]

    pub place_lem :
        (i gap : ℕ) (low : Option Bytes) (slots : List Record)
        → IsRun p bits id i gap low slots
        → IsAbove low k
        → gap ≤ slot_of k bits
        → slot_of k bits ≤ i
        → IsPlaced rec k i gap low slots (place p rec k i slots)
    unfolding place find occupied
    place_lem i gap low [] h above least most = (refl, IsPacked-nil (slot_of k bits - i))
    place_lem i gap low (occ ∷ rest) h above least most = elim (Option-cases (key p occ)) [
      | inl free ↦
          let run = rw (free, IsRun) at h in
          let missing =
            find_left p bits id fits (suc i) (suc i) low k rest run (omega arith) (omega arith) in
          let under =
            IsRun-under p bits id fits (suc i) (suc i) low k rest here run (omega arith)
              (omega arith) in
          let missing' : find p k (occ ∷ rest) ≡ none = rw (free, find) missing in
          rw (free, e, place, IsRun)
            (
              (
                here,
                above,
                least,
                most,
                IsRun-gap p bits id (suc i) (suc i) gap (some k) rest under (omega arith),
              ),
              λ t. rw (free, e, find) refl,
              refl,
              rw (free, e, occupied) refl,
              subst (λ o. Advances rec o true) (sym missing') refl,
              (0, omega arith, refl),
            )
      | inr (j, held) ↦
          let (there, higher, far, near, run) = rw (held, IsRun) at h in
          elim (Bool-cases (eqb j k)) [
            | inl same ↦ same_lem i gap low occ rest j held same (there, higher, far, near) run
            | inr other ↦ elim (Bool-cases (leb_bytes k j)) [
              | inr before ↦
                  rw (held, other, before, place)
                    (keep_lem rec occ k j i gap low rest (place p rec k (suc i) rest) held
                      (there, higher, far, near) before
                      (place_lem (suc i) gap (some j) rest run before least (omega arith)))
              | inl le ↦
                  let after : leb_bytes j k ≡ false =
                    ground
                      (arith, leb_bytes_antisym j k, leb_bytes_total k j, leb_bytes_total j k) in
                  let missing : find p k (occ ∷ rest) ≡ none =
                    rw (held, other, find) (find_below p bits id (suc i) gap k j rest run le) in
                  rw (held, other, le, place)
                    (drop_in_lem rec occ k j i gap low rest (close_gap (occ ∷ rest)) e
                      (here, above, least, most) missing
                      (close_gap_lem p bits id i gap (some k) (occ ∷ rest)
                        (rw (held, IsRun) (there, after, far, near, run)) (omega arith)))
            ]
          ]
    ]
