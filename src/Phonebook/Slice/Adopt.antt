-- ===== src/Phonebook/Slice/Adopt.antt =====
-- The body of a valid slice of src/phonebook.rs is read back.
use fgtw.Base.{
  ℕ, suc, ◌*◌, ◌≡◌, refl, sym, ap, ◌∙◌, inl, inr, true, some, List, [], ◌∷◌, ◌==◌, ==_iff, length,
  length-append, take-append, drop-append, All, arith, Option-cases,
}
use fgtw.Primitives.{Primitives}
use fgtw.Phonebook.Keys.{slice_slots, stride}
use fgtw.Phonebook.Record.{Record, key}
use fgtw.Phonebook.Slice.{Slice}
use fgtw.Phonebook.Slice.Lookup.{IsValid, occupied}
use fgtw.Phonebook.Slice.Gap.{keyless-is_empty, keyed-is_empty}
use fgtw.Phonebook.Slice.Body.{slots_bytes, as_bytes, chop, count_fill, read_body, from_bytes}

-- Every slot has the stride's bytes.
abbrev pub IsSized : List Record → Type 0
IsSized slots = All (λ (rec : Record). length rec.bytes ≡ stride) slots

length-slots_bytes :
    (slots : List Record) → IsSized slots → length (slots_bytes slots) ≡ length slots * stride
unfolding slots_bytes
length-slots_bytes [] h = omega arith
length-slots_bytes (rec ∷ rest) h =
    omega (arith, length-append rec.bytes (slots_bytes rest), h.0, length-slots_bytes rest h.1)

chop-slots_bytes :
    (slots : List Record) → IsSized slots → chop (length slots) (slots_bytes slots) ≡ slots
unfolding chop slots_bytes
chop-slots_bytes [] h = refl
chop-slots_bytes (rec ∷ rest) h =
    rw (sym h.0, take-append rec.bytes (slots_bytes rest), drop-append rec.bytes (slots_bytes rest))
      (ap (◌∷◌ rec) (chop-slots_bytes rest h.1))

count_fill-occupied : (p : Primitives) (slots : List Record) → count_fill slots ≡ occupied p slots
unfolding count_fill occupied
count_fill-occupied p [] = refl
count_fill-occupied p (rec ∷ rest) = elim (Option-cases (key p rec)) [
  | inl free ↦ rw (keyless-is_empty p rec free, free, occupied) (count_fill-occupied p rest)
  | inr (k, held) ↦
      rw (keyed-is_empty p rec k held, held, occupied) (ap suc (count_fill-occupied p rest))
]

read_body-slots_bytes :
    (p : Primitives) (slots bits id : ℕ) (buf : List Record)
    → length buf ≡ slots
    → IsSized buf
    → read_body slots bits id (slots_bytes buf)
      ≡ some (record { slice_bits = bits; slice_id = id; buf = buf; fill = occupied p buf })
unfolding read_body
read_body-slots_bytes p slots bits id buf count sized =
    let whole : chop slots (slots_bytes buf) ≡ buf = rw count at (chop-slots_bytes buf sized) in
    let size : (length (slots_bytes buf) == slots * stride) ≡ true =
      (==_iff (length (slots_bytes buf)) (slots * stride)).1
        (length-slots_bytes buf sized ∙ ap (λ n. n * stride) count) in
    rw (size, whole, count_fill-occupied p buf) refl

-- The body of a valid slice whose slots have the stride's bytes is read back as that slice.
pub from_bytes-as_bytes :
    (p : Primitives) (s : Slice)
    → IsValid p s
    → IsSized s.buf
    → from_bytes s.slice_bits s.slice_id (as_bytes s) ≡ some s
unfolding from_bytes as_bytes
from_bytes-as_bytes p s valid sized =
    read_body-slots_bytes p slice_slots s.slice_bits s.slice_id s.buf valid.slots sized
    ∙ ap
        (λ n.
          some (record { slice_bits = s.slice_bits; slice_id = s.slice_id; buf = s.buf; fill = n }))
        (sym valid.filled)
