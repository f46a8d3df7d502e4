-- ===== src/Base/Bits.antt =====
-- Bit masks: laws of the bitwise `&` and `|` at variables, from the digit recursion that the
-- native operations stand for, and the inclusion of masks.
use Prim.Native.Nat.{
  ℕ, zero, suc, ◌+◌, ◌*◌, ◌/◌, ◌%◌, ◌≤◌, min, max, bit_and, bit_or, digits, bit_and-bitwise,
  bit_or-bitwise,
}
use mathlib.Core.Path.{◌≡◌, refl, ap, subst}
use native.Mathlib.Omega.{arith}

-- The digit recursion takes any count of rounds that its first number does not exceed.
module _ (stop : ℕ → ℕ) (digit : ℕ → ℕ → ℕ) where
  rounds : (k l x y : ℕ) → x ≤ k → x ≤ l → digits stop digit k x y ≡ digits stop digit l x y
  rounds zero zero x y hk hl = refl
  rounds zero (suc l) zero y hk hl = refl
  rounds (suc k) zero zero y hk hl = refl
  rounds (suc k) (suc l) zero y hk hl = refl
  rounds zero l (suc x) y hk hl = absurd (omega arith)
  rounds (suc k) zero (suc x) y hk hl = absurd (omega arith)
  rounds (suc k) (suc l) (suc x) y hk hl =
      let halves = rounds k l (suc x / 2) (y / 2) (omega arith) (omega arith) in
      ap (λ (t : ℕ). t * 2 + digit (suc x % 2) (y % 2)) halves

  -- One round, on a first number that is not zero.
  one_round :
      (x y : ℕ)
      → digits stop digit (suc x) (suc x) y
        ≡ digits stop digit (suc x / 2) (suc x / 2) (y / 2) * 2 + digit (suc x % 2) (y % 2)
  one_round x y =
      let halves = rounds x (suc x / 2) (suc x / 2) (y / 2) (omega arith) (omega arith) in
      ap (λ (t : ℕ). t * 2 + digit (suc x % 2) (y % 2)) halves

-- The lowest digit of an `and` is the smaller of the two, of an `or` the larger.
pub bit_and_step : (x y : ℕ) → bit_and x y ≡ bit_and (x / 2) (y / 2) * 2 + min (x % 2) (y % 2)
bit_and_step zero y = omega (arith, bit_and-bitwise 0 (y / 2), bit_and-bitwise 0 y)
bit_and_step (suc x) y =
    let whole = bit_and-bitwise (suc x) y in
    let rest = bit_and-bitwise (suc x / 2) (y / 2) in
    rw (whole, rest) (one_round (λ t. zero) min x y)

pub bit_or_step : (x y : ℕ) → bit_or x y ≡ bit_or (x / 2) (y / 2) * 2 + max (x % 2) (y % 2)
bit_or_step zero y = omega (arith, bit_or-bitwise 0 (y / 2), bit_or-bitwise 0 y)
bit_or_step (suc x) y =
    let whole = bit_or-bitwise (suc x) y in
    let rest = bit_or-bitwise (suc x / 2) (y / 2) in rw (whole, rest) (one_round (λ t. t) max x y)

bit_and-half : (a b : ℕ) → bit_and a b / 2 ≡ bit_and (a / 2) (b / 2)
bit_and-half a b = omega (arith, bit_and_step a b)

bit_or-half : (a b : ℕ) → bit_or a b / 2 ≡ bit_or (a / 2) (b / 2)
bit_or-half a b = omega (arith, bit_or_step a b)

-- `r` is a part of `m`, as the source tests it: `m & r == r`.
abbrev pub Includes : ℕ → ℕ → Type 0
Includes m r = bit_and m r ≡ r

or_left_fuel : (n a b : ℕ) → a ≤ n → b ≤ n → Includes (bit_or a b) a
or_left_fuel zero zero zero p q = refl
or_left_fuel zero zero (suc b) p q = absurd (omega arith)
or_left_fuel zero (suc a) b p q = absurd (omega arith)
or_left_fuel (suc n) a b p q = omega (
  arith,
  bit_and_step (bit_or a b) a,
  bit_or_step a b,
  ap (λ (t : ℕ). bit_and t (a / 2)) (bit_or-half a b),
  or_left_fuel n (a / 2) (b / 2) (omega arith) (omega arith),
)

pub Includes-or_left : (a b : ℕ) → Includes (bit_or a b) a
Includes-or_left a b = or_left_fuel (a + b) a b (omega arith) (omega arith)

or_comm_fuel : (n a b : ℕ) → a ≤ n → b ≤ n → bit_or a b ≡ bit_or b a
or_comm_fuel zero zero zero p q = refl
or_comm_fuel zero zero (suc b) p q = absurd (omega arith)
or_comm_fuel zero (suc a) b p q = absurd (omega arith)
or_comm_fuel (suc n) a b p q = omega (
  arith,
  bit_or_step a b,
  bit_or_step b a,
  or_comm_fuel n (a / 2) (b / 2) (omega arith) (omega arith),
)

pub bit_or_comm : (a b : ℕ) → bit_or a b ≡ bit_or b a
bit_or_comm a b = or_comm_fuel (a + b) a b (omega arith) (omega arith)

pub Includes-or_right : (a b : ℕ) → Includes (bit_or a b) b
Includes-or_right a b = subst (λ t. Includes t b) (bit_or_comm b a) (Includes-or_left b a)

trans_fuel : (n a b c : ℕ) → a ≤ n → b ≤ n → c ≤ n → Includes a b → Includes b c → Includes a c
trans_fuel zero zero zero zero p q r h k = refl
trans_fuel zero zero zero (suc c) p q r h k = absurd (omega arith)
trans_fuel zero zero (suc b) c p q r h k = absurd (omega arith)
trans_fuel zero (suc a) b c p q r h k = absurd (omega arith)
trans_fuel (suc n) a b c p q r h k = omega (
  arith,
  bit_and_step a c,
  bit_and_step a b,
  bit_and_step b c,
  trans_fuel n (a / 2) (b / 2) (c / 2) (omega arith) (omega arith) (omega arith)
      (omega (arith, bit_and_step a b)) (omega (arith, bit_and_step b c)),
)

pub Includes-trans : (a b c : ℕ) → Includes a b → Includes b c → Includes a c
Includes-trans a b c = trans_fuel (a + b + c) a b c (omega arith) (omega arith) (omega arith)

refl_fuel : (n a : ℕ) → a ≤ n → Includes a a
refl_fuel zero zero p = refl
refl_fuel zero (suc a) p = absurd (omega arith)
refl_fuel (suc n) a p = omega (arith, bit_and_step a a, refl_fuel n (a / 2) (omega arith))

pub Includes-refl : (a : ℕ) → Includes a a
Includes-refl a = refl_fuel a a (omega arith)

least_fuel :
    (n m a b : ℕ) → m ≤ n → a ≤ n → b ≤ n → Includes m a → Includes m b → Includes m (bit_or a b)
least_fuel zero zero zero zero p q r h k = refl
least_fuel zero zero zero (suc b) p q r h k = absurd (omega arith)
least_fuel zero zero (suc a) b p q r h k = absurd (omega arith)
least_fuel zero (suc m) a b p q r h k = absurd (omega arith)
least_fuel (suc n) m a b p q r h k = omega (
  arith,
  bit_and_step m (bit_or a b),
  bit_or_step a b,
  bit_and_step m a,
  bit_and_step m b,
  ap (λ (t : ℕ). bit_and (m / 2) t) (bit_or-half a b),
  least_fuel n (m / 2) (a / 2) (b / 2) (omega arith) (omega arith) (omega arith)
      (omega (arith, bit_and_step m a)) (omega (arith, bit_and_step m b)),
)

pub Includes-or : (m a b : ℕ) → Includes m a → Includes m b → Includes m (bit_or a b)
Includes-or m a b = least_fuel (m + a + b) m a b (omega arith) (omega arith) (omega arith)

lower_fuel : (n a b : ℕ) → a ≤ n → b ≤ n → Includes b (bit_and a b)
lower_fuel zero zero zero p q = refl
lower_fuel zero zero (suc b) p q = absurd (omega arith)
lower_fuel zero (suc a) b p q = absurd (omega arith)
lower_fuel (suc n) a b p q = omega (
  arith,
  bit_and_step b (bit_and a b),
  bit_and_step a b,
  ap (λ (t : ℕ). bit_and (b / 2) t) (bit_and-half a b),
  lower_fuel n (a / 2) (b / 2) (omega arith) (omega arith),
)

pub Includes-and_right : (a b : ℕ) → Includes b (bit_and a b)
Includes-and_right a b = lower_fuel (a + b) a b (omega arith) (omega arith)

and_comm_fuel : (n a b : ℕ) → a ≤ n → b ≤ n → bit_and a b ≡ bit_and b a
and_comm_fuel zero zero zero p q = refl
and_comm_fuel zero zero (suc b) p q = absurd (omega arith)
and_comm_fuel zero (suc a) b p q = absurd (omega arith)
and_comm_fuel (suc n) a b p q = omega (
  arith,
  bit_and_step a b,
  bit_and_step b a,
  and_comm_fuel n (a / 2) (b / 2) (omega arith) (omega arith),
)

pub bit_and_comm : (a b : ℕ) → bit_and a b ≡ bit_and b a
bit_and_comm a b = and_comm_fuel (a + b) a b (omega arith) (omega arith)

pub Includes-and_left : (a b : ℕ) → Includes a (bit_and a b)
Includes-and_left a b = subst (λ t. Includes a t) (bit_and_comm b a) (Includes-and_right b a)
