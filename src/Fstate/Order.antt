-- ===== src/Fstate/Order.antt =====
-- The comparisons that the merges of src/fstate.rs make: of bytes (keys and texts), i64 values and
-- flags, and of tuples of them.
use Prim.Native.Nat.{Ordering}
use fgtw.Base.{Bool, true, false, if◌then◌else◌}
use fgtw.Base.Bytes.{Bytes, eqb}
use fgtw.Base.ByteOrder.{leb_bytes}
use fgtw.Base.Int.{ℤ, ltb_ℤ}

abbrev pub cmp_bytes : Bytes → Bytes → Ordering
cmp_bytes xs ys =
    if eqb xs ys then Ordering.eq else if leb_bytes xs ys then Ordering.lt else Ordering.gt

abbrev pub cmp_ℤ : ℤ → ℤ → Ordering
cmp_ℤ a b = if ltb_ℤ a b then Ordering.lt else if ltb_ℤ b a then Ordering.gt else Ordering.eq

abbrev pub cmp_bool : Bool → Bool → Ordering
cmp_bool false true = Ordering.lt
cmp_bool true false = Ordering.gt
cmp_bool _ _ = Ordering.eq

-- The next field decides where the fields before are equal.
infixr 6 ◌then_by◌
abbrev pub ◌then_by◌ : Ordering → Ordering → Ordering
Ordering.lt then_by o = Ordering.lt
Ordering.gt then_by o = Ordering.gt
Ordering.eq then_by o = o

abbrev pub is_gt : Ordering → Bool
is_gt Ordering.gt = true
is_gt _ = false
