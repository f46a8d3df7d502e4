-- ===== src/Pq/Scheme.antt =====
-- src/fleet.rs `mod scheme` and the per-scheme sizes of src/pq.rs. A mask is a u16, bit N = scheme N.
use Prim.Native.Nat.{bit_and, bit_or}
use fgtw.Base.{
  ℕ, ◌^◌, ◌≡◌, Bool, true, Option, none, some, List, ◌==◌, ==_iff, ltb, foldl, if◌then◌else◌,
}
use fgtw.Base.Bits.{Includes}
use fgtw.Primitives.{Primitives, Egg}

abbrev pub Mask : Type 0
Mask = ℕ

-- `1 << s`
abbrev pub bit : ℕ → Mask
bit s = 2 ^ s

unfoldable pub covers : Mask → Mask → Bool
covers mask required = bit_and mask required == required

pub covers→Includes : (m r : Mask) → covers m r ≡ true → Includes m r
unfolding covers
covers→Includes m r h = (==_iff _ r).0 h

pub Includes→covers : (m r : Mask) → Includes m r → covers m r ≡ true
unfolding covers
Includes→covers m r h = (==_iff _ r).1 h

module _ (p : Primitives) where
  unfoldable pub mask_base : Mask
  mask_base = bit p.ed25519_tag

  unfoldable pub mask_all : Mask
  mask_all = bit_or (bit_or (bit p.ed25519_tag) (bit p.falcon512_tag)) (bit p.sphincs_plus_tag)

  unfoldable pub pubkey_len : ℕ → Option ℕ
  pubkey_len s =
      if s == p.ed25519_tag
      then some 32
      else if s == p.falcon512_tag
      then some p.falcon_key_len
      else if s == p.sphincs_plus_tag
      then some p.slh_dsa_key_len
      else none

  unfoldable pub sig_len : ℕ → Option ℕ
  sig_len s =
      if s == p.ed25519_tag
      then some 64
      else if s == p.falcon512_tag
      then some p.falcon_sig_len
      else if s == p.sphincs_plus_tag
      then some p.slh_dsa_sig_len
      else none

  -- The Ed25519 and Falcon tier of `ENVELOPE_TIER`.
  unfoldable pub envelope_tier : Mask
  unfolding mask_base
  envelope_tier = bit_or mask_base (bit p.falcon512_tag)

-- `egg_mask`: a tag past the mask's width adds nothing.
abbrev pub add_egg : Mask → Egg → Mask
add_egg m e = if ltb e.scheme 16 then bit_or m (bit e.scheme) else m

unfoldable pub egg_mask : List Egg → Mask
egg_mask eggs = foldl add_egg 0 eggs
