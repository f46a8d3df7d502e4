-- ===== src/Phonebook/Registry/Rule.antt =====
-- The rule by which `Store` takes a record is the one of src/phonebook.rs `Slice::insert` at a key.
use fgtw.Base.{ℕ, ◌≡◌, ◌≢◌, refl, sym, ap, ◌∙◌, Option, none, some, Bool, true}
use fgtw.Base.Bytes.{Bytes, eqb_refl}
use fgtw.Base.Int.{leb_ℤ}
use fgtw.Base.Result.{Result, ok, err}
use fgtw.Primitives.{Primitives, DigestBytes}
use fgtw.Phonebook.Keys.{slice_of}
use fgtw.Phonebook.Record.{Record, key, epoch}
use fgtw.Phonebook.Slice.{Slice, SliceError, full, stale_epoch, wrong_slice, no_record, insert}
use fgtw.Phonebook.Slice.Run.{find}
use fgtw.Phonebook.Slice.Lookup.{IsValid}
use fgtw.Phonebook.Slice.Insert.{Advances}
use fgtw.Phonebook.Slice.Outcome.{IsInserted, insert-IsInserted}
use fgtw.Phonebook.Registry.Land.{keep_newer}

-- The slice behind an insertion, which a refusal leaves as it was.
abbrev pub behind : Slice → Result SliceError (ℕ × Slice) → Slice
behind s (ok (slot, s')) = s'
behind s (err why) = s

keep_newer-Advances :
    (o : Option Record) (rec : Record) (grew : Bool)
    → Advances rec o grew
    → keep_newer o rec ≡ some rec
unfolding keep_newer
keep_newer-Advances none rec grew h = refl
keep_newer-Advances (some old) rec grew (same, newer) = rw newer refl

outcome-keep_newer :
    (p : Primitives) (s : Slice) (rec : Record) (k : Bytes) (out : Result SliceError (ℕ × Slice))
    → key p rec ≡ some k
    → slice_of k s.slice_bits ≡ s.slice_id
    → out ≢ err full
    → IsInserted p s rec out
    → find p k (behind s out).buf ≡ keep_newer (find p k s.buf) rec
unfolding keep_newer
outcome-keep_newer p s rec k (ok (slot, s')) e home room
      (j, f, here, valid, bits, id, same, at, newer) =
    let one : j ≡ k = cc in
    let newer' = keep_newer-Advances (find p j s.buf) rec _ newer in
    rw (← one) (rw (same j, eqb_refl j, newer') refl)
outcome-keep_newer p s rec k (err no_record) e home room h = cc
outcome-keep_newer p s rec k (err (wrong_slice expected got)) e home room
      (j, f, is_id, is_slice, other) =
    let one : j ≡ k = cc in
    absurd (other (is_slice ∙ (ap (λ i. slice_of i s.slice_bits) one ∙ (home ∙ sym is_id))))
outcome-keep_newer p s rec k (err (stale_epoch stored incoming)) e home room
      (j, old, f, held, a, b, stale) =
    let one : j ≡ k = cc in
    let stale' : leb_ℤ (epoch rec) (epoch old) ≡ true = rw (a, b) at stale in
    rw (← one, held, keep_newer, stale') refl
outcome-keep_newer p s rec k (err full) e home room h = absurd (room refl)

-- In a valid slice that has room, an insertion leaves under the record's key the newer of the record
-- and what stood there.
pub insert-keep_newer :
    (p : Primitives) (s : Slice) (rec : Record) (k : Bytes)
    → DigestBytes p
    → IsValid p s
    → key p rec ≡ some k
    → slice_of k s.slice_bits ≡ s.slice_id
    → insert p s rec ≢ err full
    → find p k (behind s (insert p s rec)).buf ≡ keep_newer (find p k s.buf) rec
insert-keep_newer p s rec k digest valid e home room =
    outcome-keep_newer p s rec k (insert p s rec) e home room
      (insert-IsInserted p s rec digest valid)
