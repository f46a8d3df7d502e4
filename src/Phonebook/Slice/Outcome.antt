-- ===== src/Phonebook/Slice/Outcome.antt =====
-- The outcomes of `insert` of src/phonebook.rs on a slice.
use fgtw.Base.{
  ℕ, suc, ◌-◌, ◌≡◌, ◌≢◌, refl, sym, ap, subst, ◌∙◌, inl, inr, Bool, true, false, Option, none, some,
  List, ◌++◌, take, drop, get_elem?, ltb, arith, ==_iff, ◌==◌, if◌then◌else◌, Option-cases,
  Bool-cases,
}
use fgtw.Base.Bytes.{Bytes, eqb}
use fgtw.Base.Int.{leb_ℤ}
use fgtw.Base.Result.{Result, ok, err}
use fgtw.Primitives.{Primitives, DigestBytes}
use fgtw.Phonebook.Keys.{
  key_identity, key_pointer, key_address, key_address_set, IsKey, slice_of, slot_of,
}
use fgtw.Phonebook.Record.{
  Record, RecordKind, empty, identity_count, device_pointer, device_address, device_address_set,
  kind, key, epoch,
}
use fgtw.Phonebook.Slice.{
  Slice, SliceError, full, stale_epoch, wrong_slice, no_record, Placed, place, place_back,
  insert_key_at, insert, ideal,
}
use fgtw.Phonebook.Slice.Run.{find, IsHere}
use fgtw.Phonebook.Slice.Lookup.{IsValid, occupied}
use fgtw.Phonebook.Slice.Insert.{IsPlaced, IsPacked, Advances, grown}
use fgtw.Phonebook.Slice.Prefix.{put_before, place_from}

some-injective : {a b : Bytes} → Option.some a ≡ some b → a ≡ b
some-injective e = cc

by_kind :
    (P : Bytes → Type 0) (t : RecordKind) {a b c d k : Bytes}
    → elim t [
      | empty ↦ none
      | identity_count ↦ some a
      | device_pointer ↦ some b
      | device_address ↦ some c
      | device_address_set ↦ some d
    ]
      ≡ some k
    → P a
    → P b
    → P c
    → P d
    → P k
by_kind P empty e ha hb hc hd = cc
by_kind P identity_count e ha hb hc hd = subst P (some-injective e) ha
by_kind P device_pointer e ha hb hc hd = subst P (some-injective e) hb
by_kind P device_address e ha hb hc hd = subst P (some-injective e) hc
by_kind P device_address_set e ha hb hc hd = subst P (some-injective e) hd

digest-IsKey : (p : Primitives) (a : Bytes) → DigestBytes p → IsKey (p.blake3 a)
digest-IsKey p a digest = (digest.digest_length a, digest.digest_bytes a)

pub key-IsKey :
    (p : Primitives) (rec : Record) (k : Bytes) → DigestBytes p → key p rec ≡ some k → IsKey k
unfolding key key_identity key_pointer key_address key_address_set
key-IsKey p rec k digest e =
    by_kind IsKey (kind rec) e (digest-IsKey p _ digest) (digest-IsKey p _ digest)
      (digest-IsKey p _ digest) (digest-IsKey p _ digest)

-- The outcomes of an insertion: a valid slice that has the record, at the slot named, in place of an
-- older one or of none, and every other key as before; or a refusal that has its reason.
abbrev pub IsInserted : (p : Primitives) → Slice → Record → Result SliceError (ℕ × Slice) → Type 0
IsInserted p s rec (ok (slot, s')) =
    (k : Bytes) × (key p rec ≡ some k)
    × IsHere p s.slice_bits s.slice_id k
    × IsValid p s'
    × (s'.slice_bits ≡ s.slice_bits)
    × (s'.slice_id ≡ s.slice_id)
    × ((j : Bytes) → find p j s'.buf ≡ (if eqb k j then some rec else find p j s.buf))
    × (get_elem? s'.buf slot ≡ some rec)
    × Advances rec (find p k s.buf) (ltb s.fill s'.fill)
IsInserted p s rec (err no_record) = key p rec ≡ none
IsInserted p s rec (err (wrong_slice expected got)) =
    (k : Bytes) × (key p rec ≡ some k)
    × (expected ≡ s.slice_id)
    × (got ≡ slice_of k s.slice_bits)
    × (got ≢ expected)
IsInserted p s rec (err (stale_epoch stored incoming)) =
    (k : Bytes) × (old : Record) × (key p rec ≡ some k)
    × (find p k s.buf ≡ some old)
    × (stored ≡ epoch old)
    × (incoming ≡ epoch rec)
    × (leb_ℤ incoming stored ≡ true)
IsInserted p s rec (err full) =
    (k : Bytes) × (key p rec ≡ some k)
    × (find p k s.buf ≡ none)
    × IsPacked p s.slice_bits s.slice_id (slot_of k s.slice_bits) s.buf

module _ (p : Primitives) (s : Slice) (rec : Record) (k : Bytes) (e : key p rec ≡ some k)
    (ok_slice : IsValid p s) (here : IsHere p s.slice_bits s.slice_id k) where
  wrap :
      (before : List Record) (out : Result SliceError Placed)
      → IsPlaced p s.slice_bits s.slice_id rec k 0 0 none s.buf (put_before before out)
      → IsInserted p s rec (place_back p s before out)
  wrap before (ok placed) (run, same, size, held, newer, (m, at, there)) =
      let at' : placed.slot ≡ m = omega (arith, at) in
      (
        k,
        e,
        here,
        record {
          few_bits = ok_slice.few_bits;
          slots = size ∙ ok_slice.slots;
          run = run;
          filled = fills placed.grew held;
        },
        refl,
        refl,
        same,
        subst (λ n. get_elem? (before ++ placed.slots) n ≡ some rec) (sym at') there,
        more placed.grew newer,
      )
    where
      fills :
          (grew : Bool)
          → occupied p (before ++ placed.slots) ≡ grown grew (occupied p s.buf)
          → (if grew then suc s.fill else s.fill) ≡ occupied p (before ++ placed.slots)
      fills true h = ap suc ok_slice.filled ∙ sym h
      fills false h = ok_slice.filled ∙ sym h

      more :
          (grew : Bool)
          → Advances rec (find p k s.buf) grew
          → Advances rec (find p k s.buf) (ltb s.fill (if grew then suc s.fill else s.fill))
      more true h = let larger : ltb s.fill (suc s.fill) ≡ true = ground arith in rw larger h
      more false h = let equal : ltb s.fill s.fill ≡ false = ground arith in rw equal h
  wrap before (err full) (missing, packed) =
      let start : slot_of k s.slice_bits - 0 ≡ slot_of k s.slice_bits = omega arith in
      (k, e, missing, rw start at packed)
  wrap before (err (stale_epoch stored incoming)) (old, found, st, inc, le) =
      (k, old, e, found, st, inc, rw (st, inc) le)
  wrap before (err (wrong_slice _ _)) h = cc
  wrap before (err no_record) h = cc

-- Every outcome of `insert` on a valid slice.
pub insert-IsInserted :
    (p : Primitives) (s : Slice) (rec : Record)
    → DigestBytes p
    → IsValid p s
    → IsInserted p s rec (insert p s rec)
unfolding insert insert_key_at ideal
insert-IsInserted p s rec digest valid = elim (Option-cases (key p rec)) [
  | inl e ↦ rw (e, insert) e
  | inr (k, e) ↦ elim (Bool-cases (slice_of k s.slice_bits == s.slice_id)) [
    | inr other ↦
        rw (e, other, insert, insert_key_at)
          (
            k,
            e,
            refl,
            refl,
            λ same.
                absurd (ground (arith, other, same, ==_iff (slice_of k s.slice_bits) s.slice_id)),
          )
    | inl same ↦
        let here : IsHere p s.slice_bits s.slice_id k =
          (key-IsKey p rec k digest e, (==_iff _ s.slice_id).0 same) in
        rw (e, same, insert, insert_key_at)
          (wrap p s rec k e valid here (take (slot_of k s.slice_bits) s.buf)
            (place p rec k (slot_of k s.slice_bits) (drop (slot_of k s.slice_bits) s.buf))
            (place_from p s.slice_bits s.slice_id valid.few_bits rec k e here
              (slot_of k s.slice_bits) 0 0 none s.buf valid.run tt (omega arith) (omega arith)))
  ]
]
