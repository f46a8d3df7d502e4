-- ===== src/Pq/Verdicts.antt =====
-- How the two rules for lists of eggs compare, src/pq.rs `verify_eggs` and `verify_eggs_declared`.
use Prim.Native.Nat.{bit_or, bit_and}
use native.Mathlib.Nat.{pow-suc}
use fgtw.Base.{
  ℕ, zero, suc, ◌≡◌, ◌≤◌, refl, inl, inr, true, false, none, some, List, [], ◌∷◌, arith, ◌/◌, ◌<◌,
  ltb, All, Bool-cases, Option-cases, foldl, if◌then◌else◌,
}
use fgtw.Base.Bits.{Includes, bit_and_step, Includes-or_left, Includes-or_right}
use fgtw.Base.Bytes.{Bytes}
use fgtw.Primitives.{Primitives, Egg}
use fgtw.Pq.Scheme.{Mask, bit, egg_mask, add_egg}
use fgtw.Pq.Bundle.{KeyBundle, pubkey, is_some}
use fgtw.Pq.Eggs.{
  verify_egg, egg_ok, all_ok, verify_eggs, declared_loop, declared_verdict, verify_eggs_declared,
}

-- The eggs whose scheme the bundle has a key for.
abbrev pub declared_eggs : KeyBundle → List Egg → List Egg
declared_eggs b [] = []
declared_eggs b (e ∷ es) =
    if is_some (pubkey b e.scheme) then e ∷ declared_eggs b es else declared_eggs b es

bit-positive : (s : ℕ) → 0 < bit s
bit-positive zero = omega arith
bit-positive (suc s) = omega (arith, bit-positive s, pow-suc 2 s)

and_zero_fuel : (n x : ℕ) → x ≤ n → bit_and 0 x ≡ 0
and_zero_fuel zero zero h = refl
and_zero_fuel zero (suc x) h = absurd (omega arith)
and_zero_fuel (suc n) x h = omega (arith, bit_and_step 0 x, and_zero_fuel n (x / 2) (omega arith))

and_zero : (x : ℕ) → bit_and 0 x ≡ 0
and_zero x = and_zero_fuel x x (omega arith)

-- A mask that has a part that is not empty is not empty.
part-positive : (m x : ℕ) → Includes m x → 0 < x → 0 < m
part-positive zero x part h = absurd (omega (arith, part, and_zero x))
part-positive (suc m) x part h = omega arith

or-positive : (m x : ℕ) → 0 < x → 0 < bit_or m x
or-positive m x h = part-positive (bit_or m x) x (Includes-or_right m x) h

or-positive_left : (m x : ℕ) → 0 < m → 0 < bit_or m x
or-positive_left m x h = part-positive (bit_or m x) m (Includes-or_left m x) h

add_egg-positive : (es : List Egg) (m : Mask) → 0 < m → 0 < foldl add_egg m es
add_egg-positive [] m h = h
add_egg-positive (e ∷ es) m h =
    add_egg-positive es (add_egg m e) (ground (arith, or-positive_left m (bit e.scheme) h))

module _ (p : Primitives) (b : KeyBundle) (msg : Bytes) where
  declared_loop-eggs :
      (es : List Egg) (m : Mask)
      → All (λ (e : Egg). e.scheme < 16) es
      → declared_loop p b msg m es ≡ (
          if all_ok p b msg (declared_eggs b es)
          then some (foldl add_egg m (declared_eggs b es))
          else none)
  unfolding declared_loop all_ok
  declared_loop-eggs [] m h = refl
  declared_loop-eggs (e ∷ es) m (narrow, h) = elim (Option-cases (pubkey b e.scheme)) [
    | inl none_held ↦ rw (none_held, declared_loop) (declared_loop-eggs es m h)
    | inr (pk, held) ↦
        let fits : ltb e.scheme 16 ≡ true = ground (arith, narrow) in
        elim (Bool-cases (verify_egg p e.scheme pk msg e.sig)) [
          | inr fails ↦
              let refused : egg_ok p b msg e ≡ false = unfold egg_ok in rw (egg_ok, held) fails in
              rw (held, declared_loop, fails, all_ok, refused) refl
          | inl holds ↦
              let sound : egg_ok p b msg e ≡ true = unfold egg_ok in rw (egg_ok, held) holds in
              rw (held, holds, all_ok, sound, fits, declared_loop)
                (declared_loop-eggs es (bit_or m (bit e.scheme)) h)
        ]
  ]

  verdict :
      (es : List Egg) (required : Mask)
      → All (λ (e : Egg). e.scheme < 16) es
      → declared_verdict p (if all_ok p b msg es then some (foldl add_egg 0 es) else none) required
        ≡ verify_eggs p es b msg required
  unfolding declared_verdict verify_eggs egg_mask all_ok
  verdict [] required h = refl
  verdict (e ∷ es) required (narrow, h) =
      let some_scheme : 0 < foldl add_egg (add_egg 0 e) es =
        add_egg-positive es (add_egg 0 e)
          (ground (arith, narrow, or-positive 0 (bit e.scheme) (bit-positive e.scheme))) in
      ground (arith, some_scheme)

  declared-narrow :
      (es : List Egg)
      → All (λ (e : Egg). e.scheme < 16) es
      → All (λ (e : Egg). e.scheme < 16) (declared_eggs b es)
  declared-narrow [] h = tt
  declared-narrow (e ∷ es) h = elim (Bool-cases (is_some (pubkey b e.scheme))) [
    | inl held ↦ rw (held, declared_eggs) (h.0, declared-narrow es h.1)
    | inr other ↦ rw (other, declared_eggs) (declared-narrow es h.1)
  ]

  -- The lenient rule is the strict one on the eggs whose scheme the bundle declares: an egg of
  -- another scheme neither counts nor harms, one of a declared scheme must verify, and at least one
  -- must be there. The schemes of the eggs are below 16, the width of a mask.
  pub verify_eggs_declared-verify_eggs :
      (es : List Egg) (required : Mask)
      → All (λ (e : Egg). e.scheme < 16) es
      → verify_eggs_declared p es b msg required ≡ verify_eggs p (declared_eggs b es) b msg required
  unfolding verify_eggs_declared
  verify_eggs_declared-verify_eggs es required h =
      rw (declared_loop-eggs es 0 h) (verdict (declared_eggs b es) required (declared-narrow es h))
