-- ===== src/Base/BigEndian.antt =====
-- Big-endian readings of byte strings, which keep the order of strings of one length.
use Prim.Native.Nat.{ℕ, zero, suc, ◌+◌, ◌*◌, ◌<◌, ◌≤◌, ◌^◌}
use mathlib.Core.Path.{◌≡◌, refl, ap, sym}
use mathlib.Core.Bool.{true}
use mathlib.Core.List.{List, [], ◌∷◌}
use native.Mathlib.Omega.{arith}
use native.Mathlib.Nat.{pow-suc, mul-le-mul_right}
use mathlib.Core.Logic.{inl, inr}
use fgtw.Base.Bytes.{Bytes}
use fgtw.Base.Tests.{ltb, Bool-cases}
use fgtw.Base.ByteOrder.{leb_bytes}
use fgtw.Base.Lists.{length, All, take}

-- `from_be_bytes`
unfoldable pub from_be_bytes : Bytes → ℕ
from_be_bytes [] = 0
from_be_bytes (b ∷ bs) = b * 256 ^ length bs + from_be_bytes bs

module _ {ℓ κ} {A : Type ℓ} (P : A → Type κ) where
  pub All-take : (n : ℕ) (xs : List A) → All P xs → All P (take n xs)
  All-take zero xs h = tt
  All-take (suc n) [] h = tt
  All-take (suc n) (x ∷ xs) h = (h.0, All-take n xs h.1)

length-take_eq : (n : ℕ) (a b : Bytes) → length a ≡ length b → length (take n a) ≡ length (take n b)
length-take_eq zero a b e = refl
length-take_eq (suc n) [] [] e = refl
length-take_eq (suc n) [] (y ∷ b) e = absurd (omega (arith, e))
length-take_eq (suc n) (x ∷ a) [] e = absurd (omega (arith, e))
length-take_eq (suc n) (x ∷ a) (y ∷ b) e = ap suc (length-take_eq n a b (omega (arith, e)))

abbrev pub IsByte : ℕ → Type 0
IsByte b = b < 256

pub from_be_bytes-lt : (bs : Bytes) → All IsByte bs → from_be_bytes bs < 256 ^ length bs
unfolding from_be_bytes
from_be_bytes-lt [] h = omega arith
from_be_bytes-lt (b ∷ bs) h =
    let p : 256 ^ suc (length bs) ≡ 256 ^ length bs * 256 = pow-suc 256 (length bs) in
    let room : suc b ≤ 256 = h.0 in
    omega (arith, from_be_bytes-lt bs h.1, mul-le-mul_right (256 ^ length bs) room)

-- Of two strings of one length, the one that comes first reads as the smaller number.
pub from_be_bytes_mono :
    (n : ℕ) (a b : Bytes)
    → length a ≡ length b
    → All IsByte a
    → leb_bytes a b ≡ true
    → from_be_bytes (take n a) ≤ from_be_bytes (take n b)
unfolding from_be_bytes leb_bytes
from_be_bytes_mono zero a b e ha h = omega arith
from_be_bytes_mono (suc n) [] b e ha h = omega arith
from_be_bytes_mono (suc n) (x ∷ a) [] e ha h = cc
from_be_bytes_mono (suc n) (x ∷ a) (y ∷ b) e ha h =
    let tail : length a ≡ length b = omega (arith, e) in
    let same : length (take n a) ≡ length (take n b) = length-take_eq n a b tail in
    let small = from_be_bytes-lt (take n a) (All-take IsByte n a ha.1) in
    let P = 256 ^ length (take n b) in
    let small' : from_be_bytes (take n a) < P = rw (sym same) small in
    elim (Bool-cases (ltb x y)) [
      | inl less ↦
          let step : suc x ≤ y = ground arith in
          rw same (omega (arith, mul-le-mul_right P step, small'))
      | inr more ↦
          let eq : x ≡ y = ground arith in
          let rest : leb_bytes a b ≡ true = ground arith in
          rw same (omega (arith, ap (λ (t : ℕ). t * P) eq, from_be_bytes_mono n a b tail ha.1 rest))
    ]
