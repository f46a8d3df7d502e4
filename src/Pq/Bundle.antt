-- ===== src/Pq/Bundle.antt =====
-- src/pq.rs `KeyBundle`: one public key per scheme, sorted by scheme, always with Ed25519.
use Prim.Native.Nat.{bit_or}
use fgtw.Base.{
  ℕ, zero, suc, ◌+◌, ◌*◌, ◌%◌, Bool, true, false, not, ◌||◌, Option, none, some, List, [], ◌∷◌,
  ◌++◌, ◌==◌, leb, ltb, length, take, drop, foldl, if◌then◌else◌,
}
use fgtw.Base.Bytes.{Bytes, zero32, le_bytes}
use fgtw.Base.Result.{Result, ok, err, ◌>>=◌, ◌>>◌, reject}
use fgtw.Base.Text.{codes}
use fgtw.Primitives.{Primitives}
use fgtw.Pq.Scheme.{Mask, bit, pubkey_len}

-- The messages of `new` and `from_bytes`.
pub data BundleError : Type 0 where
  duplicate_scheme wrong_key_length unknown_scheme missing_ed25519 : BundleError
  empty truncated_entry truncated_key trailing_bytes : BundleError

-- `(scheme, pubkey)`
pub record Key : Type 0 where
  pub scheme : ℕ
  pub key : Bytes

pub record KeyBundle : Type 0 where
  pub keys : List Key

-- `sort_by_key(|(s, _)| *s)`, which is stable.
unfoldable pub insert_key : Key → List Key → List Key
insert_key k [] = k ∷ []
insert_key k (j ∷ ks) = if leb k.scheme j.scheme then k ∷ j ∷ ks else j ∷ insert_key k ks

unfoldable pub sort_keys : List Key → List Key
unfolding insert_key
sort_keys [] = []
sort_keys (k ∷ ks) = insert_key k (sort_keys ks)

-- `windows(2).any(|w| w[0].0 == w[1].0)`
unfoldable pub has_duplicate : List Key → Bool
has_duplicate [] = false
has_duplicate (k ∷ []) = false
has_duplicate (k ∷ j ∷ ks) = (k.scheme == j.scheme) || has_duplicate (j ∷ ks)

-- `keys.iter().find(|(s, _)| *s == tag)`
unfoldable pub find_key : ℕ → List Key → Option Bytes
find_key s [] = none
find_key s (k ∷ ks) = if k.scheme == s then some k.key else find_key s ks

-- `keys.iter().fold(0, |m, (s, _)| m | (1 << *s))`
abbrev pub add_key : Mask → Key → Mask
add_key m k = bit_or m (bit k.scheme)

unfoldable pub keys_mask : List Key → Mask
keys_mask ks = foldl add_key 0 ks

unfoldable pub mask : KeyBundle → Mask
unfolding keys_mask
mask b = keys_mask b.keys

unfoldable pub pubkey : KeyBundle → ℕ → Option Bytes
unfolding find_key
pubkey b s = find_key s b.keys

abbrev pub is_some {ℓ} : {A : Type ℓ} → Option A → Bool
is_some none = false
is_some (some a) = true

abbrev pub unwrap_or {ℓ} : {A : Type ℓ} → A → Option A → A
unwrap_or d none = d
unwrap_or d (some a) = a

module _ (p : Primitives) where
  pub check_len : Option ℕ → ℕ → Result BundleError (Unit {0})
  check_len none n = err unknown_scheme
  check_len (some m) n = reject (not (m == n)) wrong_key_length

  unfoldable pub check_lens : List Key → Result BundleError (Unit {0})
  unfolding check_len
  check_lens [] = ok tt
  check_lens (k ∷ ks) = do check_len (pubkey_len p k.scheme) (length k.key); check_lens ks

  -- The checks of `KeyBundle::new` on the sorted keys.
  unfoldable pub validate : List Key → Result BundleError KeyBundle
  unfolding find_key
  validate ks = do
    reject (has_duplicate ks) duplicate_scheme
    check_lens ks
    reject (not (is_some (find_key p.ed25519_tag ks))) missing_ed25519
    ok (record { keys = ks })

  unfoldable pub new : List Key → Result BundleError KeyBundle
  unfolding sort_keys validate
  new ks = validate (sort_keys ks)

  unfoldable pub ed25519_only : Bytes → KeyBundle
  ed25519_only device = record { keys = record { scheme = p.ed25519_tag; key = device } ∷ [] }

  -- `KeyBundle::ed25519`
  unfoldable pub ed25519 : KeyBundle → Bytes
  unfolding pubkey
  ed25519 b = unwrap_or zero32 (pubkey b p.ed25519_tag)

-- `u8 scheme ‖ u16 LE len ‖ bytes`
unfoldable pub key_bytes : Key → Bytes
key_bytes k = k.scheme ∷ le_bytes 2 (length k.key) ++ k.key

unfoldable pub keys_bytes : List Key → Bytes
unfolding key_bytes
keys_bytes [] = []
keys_bytes (k ∷ ks) = key_bytes k ++ keys_bytes ks

unfoldable pub to_bytes : KeyBundle → Bytes
unfolding keys_bytes
to_bytes b = length b.keys % 256 ∷ keys_bytes b.keys

-- One round of the loop of `from_bytes`, on a header that is long enough.
unfoldable pub read_key : Bytes → Result BundleError (Key × Bytes)
read_key (s ∷ lo ∷ hi ∷ rest) =
    let n = lo + 256 * hi in
    reject (ltb (length rest) n) truncated_key
    >> ok (record { scheme = s; key = take n rest }, drop n rest)
read_key _ = err truncated_entry

unfoldable pub read_keys : ℕ → Bytes → Result BundleError (List Key × Bytes)
unfolding read_key
read_keys zero rest = ok ([], rest)
read_keys (suc count) rest = do
  (k, rest') ← read_key rest
  (ks, rest'') ← read_keys count rest'
  ok (k ∷ ks, rest'')

-- `COMMIT_DOMAIN`
abbrev pub commit_domain : Bytes
commit_domain = codes "PHOTON_KEY_BUNDLE_v1"

abbrev pub is_empty {ℓ} : {A : Type ℓ} → List A → Bool
is_empty [] = true
is_empty (x ∷ xs) = false

module _ (p : Primitives) where
  unfoldable pub from_bytes : Bytes → Result BundleError KeyBundle
  unfolding read_keys
  from_bytes [] = err empty
  from_bytes (count ∷ rest) = do
    (ks, rest') ← read_keys count rest
    reject (not (is_empty rest')) trailing_bytes
    new p ks

  unfoldable pub commit : KeyBundle → Bytes
  unfolding to_bytes
  commit b = p.derive_key commit_domain (to_bytes b)
