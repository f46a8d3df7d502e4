-- ===== src/Pq/RoundTrip.antt =====
-- The codec of key bundles, src/pq.rs `to_bytes` and `from_bytes`, and the order `new` puts keys in.
use fgtw.Base.{
  ℕ, ◌+◌, ◌*◌, ◌%◌, ◌/◌, ◌<◌, ◌≤◌, ◌≡◌, refl, ap, ◌∙◌, inl, inr, true, false, List, [], ◌∷◌, ◌++◌,
  arith, leb, ltb, length, length-append, take-append, drop-append, append_assoc, append-nil, All,
  Bool-cases,
}
use fgtw.Base.Bytes.{Bytes, le_bytes}
use fgtw.Base.Result.{ok}
use fgtw.Primitives.{Primitives}
use fgtw.Pq.Bundle.{
  Key, KeyBundle, insert_key, sort_keys, validate, new, key_bytes, keys_bytes, to_bytes, read_key,
  read_keys, from_bytes,
}

-- A key whose scheme and length fit the codec's one and two bytes.
abbrev pub Fits : Key → Type 0
Fits k = (k.scheme < 256) × (length k.key < 65536)

le_bytes-two : (n : ℕ) → le_bytes 2 n ≡ n % 256 ∷ n / 256 % 256 ∷ []
unfolding le_bytes
le_bytes-two n = refl

read_key-key_bytes :
    (k : Key) (rest : Bytes) → Fits k → read_key (key_bytes k ++ rest) ≡ ok (k, rest)
unfolding read_key key_bytes le_bytes
read_key-key_bytes k rest fits =
    let n = length k.key in
    let whole : n % 256 + 256 * (n / 256 % 256) ≡ n = omega (arith, fits.1) in
    let room : ltb (length (k.key ++ rest)) n ≡ false = ground (arith, length-append k.key rest) in
    rw (whole, room, take-append k.key rest, drop-append k.key rest) refl

read_keys-keys_bytes :
    (ks : List Key) (rest : Bytes)
    → All Fits ks
    → read_keys (length ks) (keys_bytes ks ++ rest) ≡ ok (ks, rest)
unfolding read_keys keys_bytes
read_keys-keys_bytes [] rest fits = refl
read_keys-keys_bytes (k ∷ ks) rest (here, later) =
    rw
      (
        append_assoc (key_bytes k) (keys_bytes ks) rest,
        read_key-key_bytes k (keys_bytes ks ++ rest) here,
        read_keys-keys_bytes ks rest later,
      )
      refl

-- Schemes do not fall.
abbrev pub IsSorted : List Key → Type 0
IsSorted [] = Unit {0}
IsSorted (k ∷ ks) = All (λ (j : Key). k.scheme ≤ j.scheme) ks × IsSorted ks

All-insert_key :
    (P : Key → Type 0) (k : Key) (ks : List Key) → P k → All P ks → All P (insert_key k ks)
unfolding insert_key
All-insert_key P k [] h t = (h, tt)
All-insert_key P k (j ∷ ks) h t = elim (Bool-cases (leb k.scheme j.scheme)) [
  | inl before ↦ rw before (h, t)
  | inr behind ↦ rw (behind, insert_key) (t.0, All-insert_key P k ks h t.1)
]

All-above :
    (m n : ℕ) (ks : List Key)
    → m ≤ n
    → All (λ (j : Key). n ≤ j.scheme) ks
    → All (λ (j : Key). m ≤ j.scheme) ks
All-above m n [] h k = tt
All-above m n (j ∷ ks) h k = (omega (arith, h, k.0), All-above m n ks h k.1)

insert_key-IsSorted : (k : Key) (ks : List Key) → IsSorted ks → IsSorted (insert_key k ks)
unfolding insert_key
insert_key-IsSorted k [] h = (tt, tt)
insert_key-IsSorted k (j ∷ ks) h = elim (Bool-cases (leb k.scheme j.scheme)) [
  | inl before ↦
      let less : k.scheme ≤ j.scheme = ground arith in
      rw before ((less, All-above k.scheme j.scheme ks less h.0), h)
  | inr behind ↦
      let less : j.scheme ≤ k.scheme = ground arith in
      rw (behind, insert_key)
        (
          All-insert_key (λ (x : Key). j.scheme ≤ x.scheme) k ks less h.0,
          insert_key-IsSorted k ks h.1,
        )
]

sort_keys-IsSorted : (ks : List Key) → IsSorted (sort_keys ks)
unfolding sort_keys
sort_keys-IsSorted [] = tt
sort_keys-IsSorted (k ∷ ks) = insert_key-IsSorted k (sort_keys ks) (sort_keys-IsSorted ks)

insert_least :
    (k : Key) (ks : List Key) → All (λ (j : Key). k.scheme ≤ j.scheme) ks → insert_key k ks ≡ k ∷ ks
unfolding insert_key
insert_least k [] h = refl
insert_least k (j ∷ ks) h =
    let first : leb k.scheme j.scheme ≡ true = ground (arith, h.0) in rw first refl

sort_sorted : (ks : List Key) → IsSorted ks → sort_keys ks ≡ ks
unfolding sort_keys
sort_sorted [] h = refl
sort_sorted (k ∷ ks) h = rw (sort_sorted ks h.1) (insert_least k ks h.0)

validate-keys :
    (p : Primitives) (ks : List Key) (b : KeyBundle) → validate p ks ≡ ok b → b.keys ≡ ks
unfolding validate
validate-keys p ks b h = ground arith

new-idempotent :
    (p : Primitives) (ks : List Key) (b : KeyBundle) → new p ks ≡ ok b → new p b.keys ≡ ok b
unfolding new
new-idempotent p ks b h =
    let keys = validate-keys p (sort_keys ks) b h in
    let again : sort_keys b.keys ≡ sort_keys ks =
      ap sort_keys keys ∙ sort_sorted (sort_keys ks) (sort_keys-IsSorted ks) in
    rw again h

-- A bundle that `new` gives is read back from its bytes, if its keys fit the codec's fields: at most
-- 255 keys, schemes below 256 and keys shorter than 65536 bytes.
pub from_bytes-to_bytes :
    (p : Primitives) (ks : List Key) (b : KeyBundle)
    → new p ks ≡ ok b
    → length b.keys < 256
    → All Fits b.keys
    → from_bytes p (to_bytes b) ≡ ok b
unfolding from_bytes to_bytes
from_bytes-to_bytes p ks b h few fits =
    let count : length b.keys % 256 ≡ length b.keys = omega (arith, few) in
    let read : read_keys (length b.keys) (keys_bytes b.keys) ≡ ok (b.keys, []) =
      rw append-nil at (read_keys-keys_bytes b.keys [] fits) in
    rw (count, read) (new-idempotent p ks b h)
