-- ===== src/Phonebook/Slice/Checked.antt =====
-- What src/phonebook.rs `check_invariants` finds of a slice.
use fgtw.Base.{
  ℕ, zero, suc, ◌+◌, ◌≤◌, ◌<◌, ◌≡◌, ◌↔◌, refl, sym, ap, subst, ◌∙◌, inl, inr, true, false, Option,
  none, some, List, [], ◌∷◌, get_elem?, ltb, arith, Option-cases,
}
use fgtw.Base.Bytes.{Bytes}
use fgtw.Base.Result.{ok, reject-eq-ok}
use fgtw.Base.ByteOrder.{ltb_bytes}
use fgtw.Primitives.{Primitives}
use fgtw.Phonebook.Keys.{slot_of}
use fgtw.Phonebook.Record.{Record, key}
use fgtw.Phonebook.Slice.{Slice}
use fgtw.Phonebook.Slice.Run.{IsAbove, IsAbove-trans}
use fgtw.Phonebook.Slice.Gap.{keyless-is_empty, keyed-is_empty}
use fgtw.Phonebook.Slice.Body.{
  iter_from, iter, not_after, check_from, check_invariants, left_of_ideal, out_of_order,
}

IsAbove-not_after : (low : Option Bytes) (k : Bytes) → IsAbove low k → not_after low k ≡ false
IsAbove-not_after none k h = refl
IsAbove-not_after (some l) k h = h

not_after-IsAbove : (low : Option Bytes) (k : Bytes) → not_after low k ≡ false → IsAbove low k
not_after-IsAbove none k h = tt
not_after-IsAbove (some l) k h = h

abbrev no_slots : List Record
no_slots = []

some-injective : {A : Type 0} {a b : A} → some a ≡ some b → a ≡ b
some-injective e = cc

nothing : (n : ℕ) {rec : Record} → get_elem? no_slots n ≡ some rec → ⊥
nothing zero e = cc
nothing (suc n) e = cc

module _ (p : Primitives) where
  -- The slots hold, at `n`, a record of key `k`.
  abbrev pub HasKey : List Record → ℕ → Bytes → Type 0
  HasKey slots n k = (rec : Record) × (get_elem? slots n ≡ some rec) × (key p rec ≡ some k)

  abbrev pub IsRising : List Record → Type 0
  IsRising slots =
      (n m : ℕ) (j k : Bytes) → n < m → HasKey slots n j → HasKey slots m k → ltb_bytes j k ≡ true

  -- No record stands left of its ideal slot, slots counted from `i`.
  abbrev pub IsRight : ℕ → ℕ → List Record → Type 0
  IsRight bits i slots = (n : ℕ) (k : Bytes) → HasKey slots n k → slot_of k bits ≤ i + n

  unfoldable AreAbove : Option Bytes → List Record → Type 0
  AreAbove low slots = (n : ℕ) (k : Bytes) → HasKey slots n k → IsAbove low k

  IsRight-cons :
      (bits i : ℕ) (rec : Record) (rest : List Record)
      → ((k : Bytes) → key p rec ≡ some k → slot_of k bits ≤ i)
      → IsRight bits (suc i) rest
      → IsRight bits i (rec ∷ rest)
  IsRight-cons bits i rec rest here later zero k (r, at, held) =
      let least = here k (ap (key p) (some-injective at) ∙ held) in omega (arith, least)
  IsRight-cons bits i rec rest here later (suc n) k h = omega (arith, later n k h)

  AreAbove-cons :
      (low : Option Bytes) (rec : Record) (rest : List Record)
      → ((k : Bytes) → key p rec ≡ some k → IsAbove low k)
      → AreAbove low rest
      → AreAbove low (rec ∷ rest)
  unfolding AreAbove
  AreAbove-cons low rec rest here later zero k (r, at, held) =
      here k (ap (key p) (some-injective at) ∙ held)
  AreAbove-cons low rec rest here later (suc n) k h = later n k h

  IsRising-cons :
      (rec : Record) (rest : List Record)
      → ((k : Bytes) → key p rec ≡ some k → AreAbove (some k) rest)
      → IsRising rest
      → IsRising (rec ∷ rest)
  unfolding AreAbove
  IsRising-cons rec rest here later zero zero j k less a b = absurd (omega (arith, less))
  IsRising-cons rec rest here later (suc n) zero j k less a b = absurd (omega (arith, less))
  IsRising-cons rec rest here later zero (suc m) j k less (r, at, held) b =
      let above = here j (ap (key p) (some-injective at) ∙ held) m k b in rw above refl
  IsRising-cons rec rest here later (suc n) (suc m) j k less a b =
      later n m j k (omega (arith, less)) a b

  check_from-orderly :
      (bits i : ℕ) (low : Option Bytes) (slots : List Record)
      → check_from p bits low (iter_from i slots) ≡ ok tt
      → IsRight bits i slots × AreAbove low slots × IsRising slots
  unfolding check_from iter_from AreAbove
  check_from-orderly bits i low [] e = (
    λ n k h. absurd (nothing n h.1),
    λ n k h. absurd (nothing n h.1),
    λ n m j k less a b. absurd (nothing n a.1),
  )
  check_from-orderly bits i low (rec ∷ rest) e = elim (Option-cases (key p rec)) [
    | inl free ↦
        let (right, above, rising) =
          check_from-orderly bits (suc i) low rest (rw (keyless-is_empty p rec free) at e) in
        let never : (k : Bytes) → key p rec ≡ some k → ⊥ = λ k h. cc in
        (
          IsRight-cons bits i rec rest (λ k h. absurd (never k h)) right,
          AreAbove-cons low rec rest (λ k h. absurd (never k h)) above,
          IsRising-cons rec rest (λ k h. absurd (never k h)) rising,
        )
    | inr (j, held) ↦
        let passed = rw (keyed-is_empty p rec j held, check_from, held) at e in
        let (here, rest₁) = reject-eq-ok (ltb i (slot_of j bits)) left_of_ideal _ passed in
        let (after, rest₂) = reject-eq-ok (not_after low j) out_of_order _ rest₁ in
        let (right, above, rising) = check_from-orderly bits (suc i) (some j) rest rest₂ in
        let same : (k : Bytes) → key p rec ≡ some k → j ≡ k =
          λ k h. some-injective (sym held ∙ h) in
        let low_j = not_after-IsAbove low j after in
        (
          IsRight-cons bits i rec rest (λ k h. rw (← same k h) (ground (arith, here))) right,
          AreAbove-cons low rec rest (λ k h. subst (IsAbove low) (same k h) low_j)
              (λ n k h. IsAbove-trans low j k low_j (above n k h)),
          IsRising-cons rec rest (λ k h. subst (λ o. AreAbove (some o) rest) (same k h) above)
              rising,
        )
  ]

  orderly-check_from :
      (bits i : ℕ) (low : Option Bytes) (slots : List Record)
      → IsRight bits i slots
      → AreAbove low slots
      → IsRising slots
      → check_from p bits low (iter_from i slots) ≡ ok tt
  unfolding check_from iter_from AreAbove
  orderly-check_from bits i low [] right above rising = refl
  orderly-check_from bits i low (rec ∷ rest) right above rising =
      let right' : IsRight bits (suc i) rest = λ n k h. omega (arith, right (suc n) k h) in
      let above' : AreAbove low rest = λ n k h. above (suc n) k h in
      let rising' : IsRising rest =
        λ n m j k less a b. rising (suc n) (suc m) j k (omega (arith, less)) a b in
      elim (Option-cases (key p rec)) [
        | inl free ↦
            rw (keyless-is_empty p rec free)
              (orderly-check_from bits (suc i) low rest right' above' rising')
        | inr (j, held) ↦
            let here : ltb i (slot_of j bits) ≡ false =
              ground (arith, right zero j (rec, refl, held)) in
            let after = IsAbove-not_after low j (above zero j (rec, refl, held)) in
            let behind : AreAbove (some j) rest =
              λ n k h. ground (arith, rising zero (suc n) j k (omega arith) (rec, refl, held) h) in
            rw (keyed-is_empty p rec j held, held, here, after)
              (orderly-check_from bits (suc i) (some j) rest right' behind rising')
      ]

  -- A slice passes the check exactly when no record stands left of its ideal slot and the keys rise
  -- strictly from slot to slot, empty slots aside.
  pub check_invariants_iff :
      (s : Slice) → (check_invariants p s ≡ ok tt) ↔ (IsRight s.slice_bits 0 s.buf × IsRising s.buf)
  unfolding check_invariants iter AreAbove
  check_invariants_iff s = (
    λ e.
        let (right, above, rising) = check_from-orderly s.slice_bits 0 none s.buf e in
        (right, rising),
    λ (right, rising). orderly-check_from s.slice_bits 0 none s.buf right (λ n k h. tt) rising,
  )
