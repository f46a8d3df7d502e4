-- ===== src/Phonebook/Order.antt =====
-- The order of keys and of their slots, src/phonebook.rs `slice_of` and `slot_of`.
use fgtw.Base.{
  ℕ, zero, suc, ◌+◌, ◌-◌, ◌*◌, ◌/◌, ◌%◌, ◌^◌, ◌≤◌, ◌<◌, ◌≡◌, refl, ap, sym, ◌∙◌, true, [], ◌∷◌,
  ◌==◌, take, length, false, arith,
}
use native.Mathlib.Nat.{div-div-eq-div-mul, le-div_iff_mul-le, pow-suc, div-mul-le_self, one-le-pow}
use fgtw.Base.Bytes.{Bytes}
use fgtw.Base.ByteOrder.{leb_bytes}
use fgtw.Base.BigEndian.{from_be_bytes, from_be_bytes_mono, from_be_bytes-lt, IsByte, All-take}
use fgtw.Phonebook.Keys.{IsKey, slice_of, slot_of}

div_mono : (x y m : ℕ) → x ≤ y → x / 2 ^ m ≤ y / 2 ^ m
div_mono x y m h =
    let least : 1 ≤ 2 ^ m = one-le-pow m 2 (omega arith) in
    (le-div_iff_mul-le least).1 (omega (arith, h, div-mul-le_self x (2 ^ m)))

-- The first four bytes of a key are the upper half of its first eight.
top_half : (k : Bytes) → IsKey k → from_be_bytes (take 8 k) / 2 ^ 32 ≡ from_be_bytes (take 4 k)
unfolding from_be_bytes
top_half (a ∷ b ∷ c ∷ d ∷ e ∷ f ∷ g ∷ h ∷ rest) ok = omega (arith, ok.1)
top_half _ ok = absurd (omega (arith, ok.0))

zero_right : (m : ℕ) → m + 0 ≡ m
zero_right m = omega arith

suc_right : (m n : ℕ) → m + suc n ≡ suc (m + n)
suc_right m n = omega arith

pow-add : (m n : ℕ) → 2 ^ (m + n) ≡ 2 ^ m * 2 ^ n
pow-add m zero = omega (arith, ap (λ (t : ℕ). 2 ^ t) (zero_right m))
pow-add m (suc n) = omega (
  arith,
  ap (λ (t : ℕ). 2 ^ t) (suc_right m n),
  pow-suc 2 (m + n),
  pow-suc 2 n,
  ap (λ (t : ℕ). 2 ^ m * t) (pow-suc 2 n),
  pow-add m n,
)

-- Of two addresses under one upper part the greater has the greater lower part.
low_part : (a b : ℕ) → a ≤ b → a / 4096 ≡ b / 4096 → a % 4096 ≤ b % 4096
low_part a b h e = omega arith

length-take : (n : ℕ) (b : Bytes) → n ≤ length b → length (take n b) ≡ n
length-take zero b h = refl
length-take (suc n) [] h = absurd (omega (arith, h))
length-take (suc n) (x ∷ b) h = ap suc (length-take n b (omega (arith, h)))

-- The slice is what stands above the slot.
slice_of-above :
    (k : Bytes) (bits : ℕ)
    → IsKey k
    → bits ≤ 32
    → from_be_bytes (take 8 k) / 2 ^ (64 - bits - 12) / 4096 ≡ slice_of k bits
unfolding slice_of
slice_of-above k zero ok fits =
    let width : length (take 8 k) ≡ 8 = length-take 8 k (omega (arith, ok.0)) in
    let small = from_be_bytes-lt (take 8 k) (All-take IsByte 8 k ok.1) in
    let small' : from_be_bytes (take 8 k) < 2 ^ 64 = rw width at small in omega (arith, small')
slice_of-above k (suc b) ok fits =
    let x = from_be_bytes (take 8 k) in
    let m = 32 - suc b in
    let positive : (suc b == 0) ≡ false = ground arith in
    let exponent : 64 - suc b - 12 ≡ m + 20 = omega (arith, fits) in
    let widths : 2 ^ (m + 20) * 4096 ≡ 2 ^ 32 * 2 ^ m = omega (arith, pow-add m 20) in
    rw
      (
        exponent,
        div-div-eq-div-mul x (2 ^ (m + 20)) 4096,
        widths,
        sym (top_half k ok),
        div-div-eq-div-mul x (2 ^ 32) (2 ^ m),
        positive,
      )
      refl

-- In one slice, the slots of keys do not fall as the keys rise.
pub slot_of_mono :
    (j k : Bytes) (bits : ℕ)
    → IsKey j
    → IsKey k
    → bits ≤ 32
    → slice_of j bits ≡ slice_of k bits
    → leb_bytes j k ≡ true
    → slot_of j bits ≤ slot_of k bits
unfolding slot_of
slot_of_mono j k bits okj okk fits same h =
    let x = from_be_bytes (take 8 j) in
    let y = from_be_bytes (take 8 k) in
    let m = 64 - bits - 12 in
    let below = div_mono x y m (from_be_bytes_mono 8 j k (okj.0 ∙ sym okk.0) okj.1 h) in
    low_part (x / 2 ^ m) (y / 2 ^ m) below
      (slice_of-above j bits okj fits ∙ same ∙ sym (slice_of-above k bits okk fits))
