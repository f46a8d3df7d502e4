-- ===== src/Primitives.antt =====
-- What the crate takes from its dependencies (Cargo.toml): the signature crates, BLAKE3, and the
-- scheme tags, the egg codec and the clock unit of vsf. None of it is repository code, so it is a
-- record that every definition using it takes as an argument.
use fgtw.Base.{ℕ, ◌≡◌, ◌<◌, ◌≢◌, Bool, Option, some, List, length, All}
use fgtw.Base.BigEndian.{IsByte}
use fgtw.Base.Bytes.{Bytes}

-- `vsf::eggs::Egg`
pub record Egg : Type 0 where
  pub scheme : ℕ
  pub sig : Bytes

pub record Primitives : Type 0 where
  -- `vsf::eggs::{SCHEME_ED25519, SCHEME_FALCON512, SCHEME_SPHINCS_PLUS}`
  pub ed25519_tag : ℕ
  pub falcon512_tag : ℕ
  pub sphincs_plus_tag : ℕ
  -- `vsf::eggs::{eggs_to_bytes, eggs_from_bytes}`
  pub eggs_to_bytes : List Egg → Bytes
  pub eggs_from_bytes : Bytes → Option (List Egg)
  -- `vsf::OSCILLATIONS_PER_SECOND`
  pub oscillations_per_second : ℕ
  -- `blake3::Hasher` over the concatenation of the updates
  pub blake3 : Bytes → Bytes
  -- `blake3::derive_key(context, key_material)`
  pub derive_key : Bytes → Bytes → Bytes
  -- ed25519_dalek: `VerifyingKey::from_bytes(pk)` and then `verify(msg, sig)`
  pub dalek_verify : Bytes → Bytes → Bytes → Bool
  -- ed25519_dalek: `SigningKey::from_bytes(seed)`, its `verifying_key()`, and `sign(msg)`
  pub dalek_public : Bytes → Bytes
  pub dalek_sign : Bytes → Bytes → Bytes
  -- fn_dsa_vrfy: `VerifyingKey512::decode(pk)` and then `verify(sig, msg)`
  pub falcon_verify : Bytes → Bytes → Bytes → Bool
  -- fips205: `PublicKey::try_from_bytes(pk)` and then `verify(msg, sig)`
  pub slh_dsa_verify : Bytes → Bytes → Bytes → Bool
  -- `vrfy_key_size(FN_DSA_LOGN_512)`, `signature_size(FN_DSA_LOGN_512)`, `PK_LEN`, `SIG_LEN`
  pub falcon_key_len : ℕ
  pub falcon_sig_len : ℕ
  pub slh_dsa_key_len : ℕ
  pub slh_dsa_sig_len : ℕ

-- The scheme tags are three numbers, each of them a bit of a 16-bit mask.
pub record TagsDiffer (p : Primitives) : Type 0 where
  pub ed_falcon : p.ed25519_tag ≢ p.falcon512_tag
  pub ed_sphincs : p.ed25519_tag ≢ p.sphincs_plus_tag
  pub falcon_sphincs : p.falcon512_tag ≢ p.sphincs_plus_tag
  pub ed_fits : p.ed25519_tag < 16
  pub falcon_fits : p.falcon512_tag < 16
  pub sphincs_fits : p.sphincs_plus_tag < 16

-- BLAKE3 as its users rely on it: no two inputs with one digest.
pub record CollisionFree (p : Primitives) : Type 0 where
  pub blake3_injective : (a b : Bytes) → p.blake3 a ≡ p.blake3 b → a ≡ b

-- Its digests are 32 bytes, keyed or not.
pub record DigestBytes (p : Primitives) : Type 0 where
  pub derived_length : (context a : Bytes) → length (p.derive_key context a) ≡ 32
  pub digest_length : (a : Bytes) → length (p.blake3 a) ≡ 32
  pub digest_bytes : (a : Bytes) → All IsByte (p.blake3 a)

-- The egg codec of vsf is framed: no two egg lists share a wire form.
pub record EggsInjective (p : Primitives) : Type 0 where
  pub eggs_injective : (a b : List Egg) → p.eggs_to_bytes a ≡ p.eggs_to_bytes b → a ≡ b

-- It reads back what it writes.
pub record EggsRoundTrip (p : Primitives) : Type 0 where
  pub eggs_round_trip : (a : List Egg) → p.eggs_from_bytes (p.eggs_to_bytes a) ≡ some a
