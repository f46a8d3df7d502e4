-- ===== src/Base/Result.antt =====
-- `Result<T, E>` and its chains: `?` is the bind, and `if c { return Err(e) }` is `reject c e`.
use mathlib.Core.Path.{◌≡◌, refl}
use mathlib.Core.Bool.{Bool, true, false}
use mathlib.Core.Option.{Option, none, some}

pub data Result {ℓ} (E A : Type ℓ) : Type ℓ where
  ok : A → Result E A
  err : E → Result E A

infixl 5 ◌>>=◌ ◌>>◌
abbrev pub ◌>>=◌ : {E A B : Type 0} → Result E A → (A → Result E B) → Result E B
ok a >>= f = f a
err e >>= f = err e

abbrev pub ◌>>◌ : {E B : Type 0} → Result E (Unit {0}) → Result E B → Result E B
m >> k = m >>= λ _. k

abbrev pub reject : {E : Type 0} → Bool → E → Result E (Unit {0})
reject true e = err e
reject false e = ok tt

abbrev pub ok_or : {E A : Type 0} → Option A → E → Result E A
ok_or none e = err e
ok_or (some a) e = ok a

abbrev pub to_option : {E A : Type 0} → Result E A → Option A
to_option (ok a) = some a
to_option (err e) = none

abbrev pub map_ok : {E A B : Type 0} → (A → B) → Result E A → Result E B
map_ok f (ok a) = ok (f a)
map_ok f (err e) = err e

-- Where a chain ends well, so does its first step, and the rest goes on from what that gave.
pub >>=-eq-ok :
    {E A B : Type 0} (step : Result E A) (rest : A → Result E B) {r : B}
    → (step >>= rest) ≡ ok r
    → (x : A) × (step ≡ ok x) × (rest x ≡ ok r)
>>=-eq-ok (err why) rest ends = cc
>>=-eq-ok (ok x) rest ends = (x, refl, ends)

pub reject-eq-ok :
    {E B : Type 0} (c : Bool) (e : E) (k : Result E B) {b : B}
    → (reject c e >> k) ≡ ok b
    → (c ≡ false) × (k ≡ ok b)
reject-eq-ok true e k h = cc
reject-eq-ok false e k h = (refl, h)
