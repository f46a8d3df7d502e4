-- ===== src/Base/ByteOrder.antt =====
-- The order of byte strings: by the first place where they differ, a beginning before its longer ones.
use mathlib.Core.Path.{◌≡◌, refl}
use mathlib.Core.Bool.{Bool, true, false, not, ◌&&◌, ◌||◌}
use mathlib.Core.List.{[], ◌∷◌}
use native.Mathlib.Omega.{arith}
use fgtw.Base.Tests.{ltb, ◌==◌}
use fgtw.Base.Bytes.{Bytes, eqb}

-- `<=` on bytes, by the first place where they differ.
unfoldable pub leb_bytes : Bytes → Bytes → Bool
leb_bytes [] ys = true
leb_bytes (x ∷ xs) [] = false
leb_bytes (x ∷ xs) (y ∷ ys) = ltb x y || ((x == y) && leb_bytes xs ys)

pub leb_bytes_total : (xs ys : Bytes) → leb_bytes xs ys ≡ false → leb_bytes ys xs ≡ true
unfolding leb_bytes
leb_bytes_total [] ys h = cc
leb_bytes_total (x ∷ xs) [] h = refl
leb_bytes_total (x ∷ xs) (y ∷ ys) h = ground (arith, leb_bytes_total xs ys)

pub leb_bytes_antisym :
    (xs ys : Bytes) → leb_bytes xs ys ≡ true → leb_bytes ys xs ≡ true → eqb xs ys ≡ true
unfolding leb_bytes eqb
leb_bytes_antisym [] [] h k = refl
leb_bytes_antisym [] (y ∷ ys) h k = cc
leb_bytes_antisym (x ∷ xs) [] h k = cc
leb_bytes_antisym (x ∷ xs) (y ∷ ys) h k = ground (arith, leb_bytes_antisym xs ys)

pub leb_bytes_trans :
    (xs ys zs : Bytes) → leb_bytes xs ys ≡ true → leb_bytes ys zs ≡ true → leb_bytes xs zs ≡ true
unfolding leb_bytes
leb_bytes_trans [] ys zs h k = refl
leb_bytes_trans (x ∷ xs) [] zs h k = cc
leb_bytes_trans (x ∷ xs) (y ∷ ys) [] h k = cc
leb_bytes_trans (x ∷ xs) (y ∷ ys) (z ∷ zs) h k = ground (arith, leb_bytes_trans xs ys zs)

-- `a < b`
abbrev pub ltb_bytes : Bytes → Bytes → Bool
ltb_bytes a b = not (leb_bytes b a)

pub leb_bytes_refl : (a : Bytes) → leb_bytes a a ≡ true
unfolding leb_bytes
leb_bytes_refl [] = refl
leb_bytes_refl (x ∷ xs) = ground (arith, leb_bytes_refl xs)
