-- ===== src/Base/Bytes.antt =====
-- Bytes as numbers, their equality test, and fixed-width little-endian encodings.
use Prim.Native.Nat.{ℕ, zero, suc, ◌+◌, ◌*◌, ◌/◌, ◌%◌, ◌<◌, ◌^◌}
use mathlib.Core.Path.{◌≡◌, refl, ap, subst}
use mathlib.Core.Logic.{◌↔◌, ◌≢◌}
use mathlib.Core.Bool.{Bool, true, false, ◌&&◌}
use mathlib.Core.List.{List, [], ◌∷◌}
use native.Mathlib.Omega.{arith}
use native.Mathlib.Nat.{pow-suc}
use fgtw.Base.Tests.{◌==◌}
use fgtw.Base.Lists.{length, replicate}

abbrev pub Bytes : Type 0
Bytes = List ℕ

-- `[0u8; 32]`
abbrev pub zero32 : Bytes
zero32 = replicate 32 0

-- A value of type `[u8; 32]` has 32 bytes.
abbrev pub Is32 : Bytes → Type 0
Is32 b = length b ≡ 32

unfoldable pub eqb : Bytes → Bytes → Bool
eqb [] [] = true
eqb [] (y ∷ ys) = false
eqb (x ∷ xs) [] = false
eqb (x ∷ xs) (y ∷ ys) = (x == y) && eqb xs ys

pub eqb→eq : (xs ys : Bytes) → eqb xs ys ≡ true → xs ≡ ys
unfolding eqb
eqb→eq [] [] h = refl
eqb→eq [] (y ∷ ys) h = cc
eqb→eq (x ∷ xs) [] h = cc
eqb→eq (x ∷ xs) (y ∷ ys) h = ground (arith, eqb→eq xs ys)

pub eqb_refl : (xs : Bytes) → eqb xs xs ≡ true
unfolding eqb
eqb_refl [] = refl
eqb_refl (x ∷ xs) = ground (arith, eqb_refl xs)

pub eqb_iff : (xs ys : Bytes) → (eqb xs ys ≡ true) ↔ (xs ≡ ys)
eqb_iff xs ys = (eqb→eq xs ys, λ e. subst (λ t. eqb xs t ≡ true) e (eqb_refl xs))

pub eqb-false : (xs ys : Bytes) → xs ≢ ys → eqb xs ys ≡ false
eqb-false xs ys h = ground (arith, eqb_iff xs ys)

-- `to_le_bytes` at a width in bytes; a wider value is cut to it, as an `as` cast does.
unfoldable pub le_bytes : ℕ → ℕ → Bytes
le_bytes zero n = []
le_bytes (suc w) n = n % 256 ∷ le_bytes w (n / 256)

unfoldable pub from_le_bytes : Bytes → ℕ
from_le_bytes [] = 0
from_le_bytes (b ∷ bs) = b + 256 * from_le_bytes bs

pub length-le_bytes : (w n : ℕ) → length (le_bytes w n) ≡ w
unfolding le_bytes
length-le_bytes zero n = refl
length-le_bytes (suc w) n = ap suc (length-le_bytes w (n / 256))

-- A value that fits its width is read back.
pub from_le_bytes-le_bytes : (w n : ℕ) → n < 256 ^ w → from_le_bytes (le_bytes w n) ≡ n
unfolding le_bytes from_le_bytes
from_le_bytes-le_bytes zero n h = omega arith
from_le_bytes-le_bytes (suc w) n h =
    let p : 256 ^ suc w ≡ 256 ^ w * 256 = pow-suc 256 w in
    omega (arith, from_le_bytes-le_bytes w (n / 256) (omega arith))

pub le_bytes-injective :
    (w a b : ℕ) → a < 256 ^ w → b < 256 ^ w → le_bytes w a ≡ le_bytes w b → a ≡ b
le_bytes-injective w a b ha hb e =
    omega (arith, ap from_le_bytes e, from_le_bytes-le_bytes w a ha, from_le_bytes-le_bytes w b hb)
