-- ===== src/Base/Int.antt =====
-- i64 values as integers over the native numbers: comparisons, and `abs_diff`.
use Prim.Native.Nat.{ℕ, suc, ◌+◌, ◌-◌, ◌≤◌, ◌<◌, ◌^◌}
use mathlib.Core.Path.{◌≡◌}
use mathlib.Core.Bool.{Bool}
use native.Mathlib.Omega.{arith}
use fgtw.Base.Tests.{ltb, leb, ◌==◌, if◌then◌else◌}

-- `negsuc n` is -(n + 1).
pub data ℤ : Type 0 where
  pos : ℕ → ℤ
  negsuc : ℕ → ℤ

abbrev pub pos_part : ℤ → ℕ
pos_part (pos n) = n
pos_part (negsuc n) = 0

abbrev pub neg_part : ℤ → ℕ
neg_part (pos n) = 0
neg_part (negsuc n) = suc n

abbrev pub ltb_ℤ : ℤ → ℤ → Bool
ltb_ℤ a b = ltb (pos_part a + neg_part b) (pos_part b + neg_part a)

abbrev pub leb_ℤ : ℤ → ℤ → Bool
leb_ℤ a b = leb (pos_part a + neg_part b) (pos_part b + neg_part a)

abbrev pub eqb_ℤ : ℤ → ℤ → Bool
eqb_ℤ a b = (pos_part a + neg_part b) == (pos_part b + neg_part a)

-- `i64::abs_diff`
abbrev pub abs_diff : ℤ → ℤ → ℕ
abs_diff a b =
    let x = pos_part a + neg_part b in let y = pos_part b + neg_part a in (x - y) + (y - x)

-- The 64 bits of an i64, two's complement.
abbrev pub to_u64 : ℤ → ℕ
to_u64 (pos n) = n
to_u64 (negsuc n) = 2 ^ 64 - suc n

-- The i64 of 64 bits read as a u64.
unfoldable pub i64_of : ℕ → ℤ
i64_of n = if leb (2 ^ 63) n then negsuc (2 ^ 64 - suc n) else pos n

-- The range of an i64.
abbrev pub IsI64 : ℤ → Type 0
IsI64 t = (pos_part t < 2 ^ 63) × (neg_part t ≤ 2 ^ 63)

pub to_u64-injective : (a b : ℤ) → IsI64 a → IsI64 b → to_u64 a ≡ to_u64 b → a ≡ b
to_u64-injective a b ha hb h = ground arith

pub to_u64-lt : (a : ℤ) → IsI64 a → to_u64 a < 2 ^ 64
to_u64-lt (pos n) h = omega arith
to_u64-lt (negsuc n) h = omega arith
