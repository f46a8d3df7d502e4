-- ===== src/Pq/Eggs.antt =====
-- src/pq.rs: verifying one egg, the strict rule for lists of eggs, and the envelope rule.
use Prim.Native.Nat.{bit_or, bit_and}
use fgtw.Base.{
  ℕ, Bool, true, false, not, ◌&&◌, Option, none, some, List, [], ◌∷◌, ◌==◌, length, if◌then◌else◌,
}
use fgtw.Base.Bytes.{Bytes}
use fgtw.Primitives.{Primitives, Egg}
use fgtw.Pq.Scheme.{Mask, bit, covers, egg_mask, envelope_tier, mask_base}
use fgtw.Pq.Bundle.{KeyBundle, pubkey, mask}

module _ (p : Primitives) where
  unfoldable pub verify_egg : ℕ → Bytes → Bytes → Bytes → Bool
  verify_egg s key msg sig =
      if s == p.ed25519_tag
      then (length key == 32) && ((length sig == 64) && p.dalek_verify key msg sig)
      else if s == p.falcon512_tag
      then p.falcon_verify key msg sig
      else if s == p.sphincs_plus_tag
      then (length key == 32) && ((length sig == p.slh_dsa_sig_len) && p.slh_dsa_verify key msg sig)
      else false

  -- `bundle.pubkey(e.scheme)`, and then `verify_egg`; an egg with no key fails.
  unfoldable pub egg_ok : KeyBundle → Bytes → Egg → Bool
  egg_ok b msg e = elim (pubkey b e.scheme) [
    | none ↦ false
    | some pk ↦ verify_egg e.scheme pk msg e.sig
  ]

  unfoldable pub all_ok : KeyBundle → Bytes → List Egg → Bool
  unfolding egg_ok
  all_ok b msg [] = true
  all_ok b msg (e ∷ es) = egg_ok b msg e && all_ok b msg es

  unfoldable pub verify_eggs : List Egg → KeyBundle → Bytes → Mask → Bool
  unfolding all_ok
  verify_eggs [] b msg required = false
  verify_eggs (e ∷ es) b msg required = all_ok b msg (e ∷ es) && covers (egg_mask (e ∷ es)) required

  -- The loop of `verify_eggs_declared`: an egg with no key is skipped, an egg that fails ends it.
  unfoldable pub declared_loop : KeyBundle → Bytes → Mask → List Egg → Option Mask
  declared_loop b msg verified [] = some verified
  declared_loop b msg verified (e ∷ es) =
      let skipped = declared_loop b msg verified es in
      let counted = declared_loop b msg (bit_or verified (bit e.scheme)) es in
      elim (pubkey b e.scheme) [
        | none ↦ skipped
        | some pk ↦ if verify_egg e.scheme pk msg e.sig then counted else none
      ]

  unfoldable pub declared_verdict : Option Mask → Mask → Bool
  declared_verdict none required = false
  declared_verdict (some verified) required = not (verified == 0) && covers verified required

  unfoldable pub verify_eggs_declared : List Egg → KeyBundle → Bytes → Mask → Bool
  unfolding declared_loop declared_verdict
  verify_eggs_declared eggs b msg required = declared_verdict (declared_loop b msg 0 eggs) required

  -- `signer.bundle().map(|b| b.mask()).unwrap_or(MASK_BASE) & ENVELOPE_TIER`
  unfoldable pub envelope_mask : Option KeyBundle → Mask
  envelope_mask none = bit_and (mask_base p) (envelope_tier p)
  envelope_mask (some b) = bit_and (mask b) (envelope_tier p)
