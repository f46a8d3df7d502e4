-- ===== src/Phonebook/Fields.antt =====
-- Reading a field of a record of src/phonebook.rs behind the writes that built it.
use fgtw.Base.{
  ℕ, zero, suc, ◌+◌, ◌-◌, leb, ◌^◌, ◌≤◌, ◌≡◌, refl, sym, ap, subst, ◌∙◌, true, false, [], ◌∷◌, ◌++◌,
  length, length-append, take, drop, take-append, arith,
}
use fgtw.Base.Bytes.{Bytes, length-le_bytes, from_le_bytes, from_le_bytes-le_bytes}
use fgtw.Base.Int.{ℤ, pos, negsuc, IsI64, to_u64, i64_of}
use fgtw.Fleet.Signing.{time_bytes}
use fgtw.Phonebook.Layout.{read, write}

length-drop : (n : ℕ) (b : Bytes) → n ≤ length b → n + length (drop n b) ≡ length b
length-drop zero b fits = omega arith
length-drop (suc n) [] fits = absurd (omega (arith, fits))
length-drop (suc n) (x ∷ b) fits = omega (arith, length-drop n b (omega (arith, fits)))

abbrev none_left : Bytes
none_left = []

drop-nil : (n : ℕ) → drop n none_left ≡ none_left
drop-nil zero = refl
drop-nil (suc n) = refl

-- What stands behind the bytes written.
drop-overwrite :
    (m : ℕ) (bs buf : Bytes) → length bs ≤ m → drop m (bs ++ drop (length bs) buf) ≡ drop m buf
drop-overwrite m [] buf behind = refl
drop-overwrite zero (b ∷ bs) buf behind = absurd (omega (arith, behind))
drop-overwrite (suc m) (b ∷ bs) [] behind =
    subst (λ t. drop m (bs ++ t) ≡ []) (drop-nil (length bs))
      (drop-overwrite m bs [] (omega (arith, behind)) ∙ drop-nil m)
drop-overwrite (suc m) (b ∷ bs) (x ∷ buf) behind = drop-overwrite m bs buf (omega (arith, behind))

pub length-write :
    (at : ℕ) (bs buf : Bytes) → at + length bs ≤ length buf → length (write at bs buf) ≡ length buf
unfolding write
length-write zero bs buf fits = omega (
  arith,
  length-append bs (drop (length bs) buf),
  length-drop (length bs) buf (omega (arith, fits)),
)
length-write (suc at) bs [] fits = absurd (omega (arith, fits))
length-write (suc at) bs (x ∷ buf) fits = ap suc (length-write at bs buf (omega (arith, fits)))

-- The field just written.
pub read-write :
    (at n : ℕ) (bs buf : Bytes) → length bs ≡ n → at ≤ length buf → read at n (write at bs buf) ≡ bs
unfolding read write
read-write zero n bs buf size fits = rw (sym size) (take-append bs (drop (length bs) buf))
read-write (suc at) n bs [] size fits = absurd (omega (arith, fits))
read-write (suc at) n bs (x ∷ buf) size fits = read-write at n bs buf size (omega (arith, fits))

-- A field that ends before the one written.
pub read-write_left :
    (at n at' : ℕ) (bs buf : Bytes) → at + n ≤ at' → read at n (write at' bs buf) ≡ read at n buf
unfolding read write
read-write_left at zero at' bs buf before = refl
read-write_left at (suc n) zero bs buf before = absurd (omega (arith, before))
read-write_left at (suc n) (suc at') bs [] before = refl
read-write_left zero (suc n) (suc at') bs (x ∷ buf) before =
    ap (◌∷◌ x) (read-write_left 0 n at' bs buf (omega (arith, before)))
read-write_left (suc at) (suc n) (suc at') bs (x ∷ buf) before =
    read-write_left at (suc n) at' bs buf (omega (arith, before))

-- A field that begins behind it.
pub read-write_right :
    (at n at' : ℕ) (bs buf : Bytes)
    → at' + length bs ≤ at
    → read at n (write at' bs buf) ≡ read at n buf
unfolding read write
read-write_right at n zero bs buf behind =
    ap (take n) (drop-overwrite at bs buf (omega (arith, behind)))
read-write_right zero n (suc at') bs buf behind = absurd (omega (arith, behind))
read-write_right (suc at) n (suc at') bs [] behind = refl
read-write_right (suc at) n (suc at') bs (x ∷ buf) behind =
    read-write_right at n at' bs buf (omega (arith, behind))

-- Its little-endian i64 reads as the value.
pub i64_of-time_bytes : (t : ℤ) → IsI64 t → i64_of (from_le_bytes (time_bytes t)) ≡ t
unfolding i64_of
i64_of-time_bytes (pos n) fits =
    let back = from_le_bytes-le_bytes 8 n (omega (arith, fits.0)) in
    let small : leb (2 ^ 63) n ≡ false = ground (arith, fits.0) in rw (back, small) refl
i64_of-time_bytes (negsuc n) fits =
    let back = from_le_bytes-le_bytes 8 (2 ^ 64 - suc n) (omega arith) in
    let large : leb (2 ^ 63) (2 ^ 64 - suc n) ≡ true = ground (arith, fits.1) in
    let same : 2 ^ 64 - suc (2 ^ 64 - suc n) ≡ n = omega (arith, fits.1) in
    rw (back, large, same) refl

-- The buffer of a record keeps its length.
abbrev pub IsStride : Bytes → Type 0
IsStride b = length b ≡ 256

pub write-IsStride :
    (at n : ℕ) (bs b : Bytes) → IsStride b → length bs ≡ n → at + n ≤ 256 → IsStride (write at bs b)
write-IsStride at n bs b whole size fits =
    length-write at bs b (omega (arith, whole, size, fits)) ∙ whole

pub length-time_bytes : (t : ℤ) → length (time_bytes t) ≡ 8
length-time_bytes t = length-le_bytes 8 (to_u64 t)
