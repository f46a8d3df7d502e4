-- ===== src/Phonebook/Slice/Refine.antt =====
-- The slice of src/phonebook.rs as a map from keys to records.
use fgtw.Base.{
  ℕ, zero, suc, ◌+◌, ◌≡◌, refl, sym, ap, subst, ◌∙◌, inl, inr, Bool, none, some, List, [], ◌∷◌,
  drop, get_elem?, arith, if◌then◌else◌, Option-cases,
}
use fgtw.Base.Bytes.{Bytes, eqb, eqb_iff}
use fgtw.Base.Result.{ok}
use fgtw.Primitives.{Primitives, DigestBytes}
use fgtw.Pq.Bundle.{is_some}
use fgtw.Phonebook.Keys.{slot_of}
use fgtw.Phonebook.Record.{Record, key}
use fgtw.Phonebook.Slice.{Slice, insert, lookup, remove, ideal}
use fgtw.Phonebook.Slice.Run.{IsHere, find}
use fgtw.Phonebook.Slice.Lookup.{IsValid, record_of, lookup-find}
use fgtw.Phonebook.Slice.Outcome.{IsInserted, insert-IsInserted}
use fgtw.Phonebook.Slice.Remove.{remove_at, scan-get_elem?}

-- After an insertion a lookup gives the new record under its key, and under every other key of the
-- slice what it gave before. The slice was valid, and stays so.
pub lookup-insert :
    (p : Primitives) (s s' : Slice) (rec : Record) (slot : ℕ) (k j : Bytes)
    → DigestBytes p
    → IsValid p s
    → key p rec ≡ some k
    → insert p s rec ≡ ok (slot, s')
    → IsHere p s.slice_bits s.slice_id j
    → IsValid p s'
      × (record_of (lookup p s' j) ≡ (if eqb k j then some rec else record_of (lookup p s j)))
lookup-insert p s s' rec slot k j digest valid e done here =
    let (k', e', home, valid', bits, id, same, at, newer) =
      subst (IsInserted p s rec) done (insert-IsInserted p s rec digest valid) in
    let one : k' ≡ k = cc in
    let here' : IsHere p s'.slice_bits s'.slice_id j = rw (bits, id) here in
    (valid', rw (lookup-find p s' j valid' here', lookup-find p s j valid here, sym one) (same j))

drop-get_elem? :
    (n m : ℕ) (slots : List Record) → get_elem? (drop n slots) m ≡ get_elem? slots (n + m)
drop-get_elem? zero m slots = let start : 0 + m ≡ m = omega arith in rw start refl
drop-get_elem? (suc n) m [] = refl
drop-get_elem? (suc n) m (rec ∷ rest) =
    let next : suc n + m ≡ suc (n + m) = omega arith in rw next (drop-get_elem? n m rest)

-- A lookup names the slot of a record with the key it was given.
pub lookup-get_elem? :
    (p : Primitives) (s : Slice) (k : Bytes) {slot : ℕ} {rec : Record}
    → lookup p s k ≡ some (slot, rec)
    → (get_elem? s.buf slot ≡ some rec) × (key p rec ≡ some k)
unfolding lookup ideal
lookup-get_elem? p s k e =
    let n = slot_of k s.slice_bits in
    let (m, at, there, keyed) = scan-get_elem? p k n (drop n s.buf) e in
    (rw at (sym (drop-get_elem? n m s.buf) ∙ there), keyed)

-- What a removal leaves.
abbrev pub IsWithout : (p : Primitives) → Slice → Bytes → Slice × Bool → Type 0
IsWithout p s k (s', gone) =
    IsValid p s'
    × (s'.slice_bits ≡ s.slice_bits)
    × (s'.slice_id ≡ s.slice_id)
    × ((j : Bytes) → find p j s'.buf ≡ (if eqb k j then none else find p j s.buf))
    × (gone ≡ is_some (find p k s.buf))

pub remove-IsWithout :
    (p : Primitives) (s : Slice) (k : Bytes)
    → IsValid p s
    → IsHere p s.slice_bits s.slice_id k
    → IsWithout p s k (remove p s k)
unfolding remove
remove-IsWithout p s k valid here =
    let found = lookup-find p s k valid here in
    elim (Option-cases (lookup p s k)) [
      | inl e ↦
          let missing : find p k s.buf ≡ none = sym found ∙ ap record_of e in
          rw (e, missing, remove)
            (valid, refl, refl, λ j. ground (arith, missing, eqb_iff k j), refl)
      | inr ((slot, rec), e) ↦
          let held : find p k s.buf ≡ some rec = sym found ∙ ap record_of e in
          let (there, keyed) = lookup-get_elem? p s k e in
          let start : 0 + slot ≡ slot = omega arith in
          let (run, same, size, filled) = rw start at (
            remove_at p s.slice_bits s.slice_id valid.few_bits slot 0 0 none k s.buf valid.run
              (omega arith) there keyed) in
          rw (e, held, remove)
            (
              record {
                few_bits = valid.few_bits;
                slots = size ∙ valid.slots;
                run = run;
                filled = omega (arith, filled, valid.filled);
              },
              refl,
              refl,
              same,
              refl,
            )
    ]

-- After a removal a lookup gives nothing under the key removed, and under every other key of the
-- slice what it gave before; the flag says whether a lookup had found the key. The slice was valid,
-- and stays so.
pub lookup-remove :
    (p : Primitives) (s : Slice) (k j : Bytes)
    → IsValid p s
    → IsHere p s.slice_bits s.slice_id k
    → IsHere p s.slice_bits s.slice_id j
    → IsValid p (remove p s k).0
      × (record_of (lookup p (remove p s k).0 j)
          ≡ (if eqb k j then none else record_of (lookup p s j)))
      × ((remove p s k).1 ≡ is_some (record_of (lookup p s k)))
lookup-remove p s k j valid here_k here_j =
    let (valid', bits, id, same, gone) = remove-IsWithout p s k valid here_k in
    let s' = (remove p s k).0 in
    let here' : IsHere p s'.slice_bits s'.slice_id j = rw (bits, id) here_j in
    (
      valid',
      rw (lookup-find p s' j valid' here', lookup-find p s j valid here_j) (same j),
      rw (lookup-find p s k valid here_k) gone,
    )
