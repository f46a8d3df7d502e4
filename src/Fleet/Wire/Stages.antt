-- ===== src/Fleet/Wire/Stages.antt =====
-- Each stage of src/fleet.rs `parse_op` on what `op_field_values` writes for it.
use fgtw.Base.{
  ◌≡◌, refl, sym, ap, inl, inr, ℕ, ◌<◌, ◌%◌, Bool, true, false, Option, none, some, List, [], ◌∷◌,
  ◌++◌, All, arith, Bool-cases, if◌then◌else◌,
}
use fgtw.Base.Bytes.{Bytes, Is32}
use fgtw.Base.Result.{ok}
use fgtw.Primitives.{Primitives, Egg}
use fgtw.Pq.Bundle.{KeyBundle}
use fgtw.Pq.RoundTrip.{from_bytes-to_bytes}
use fgtw.Fleet.Op.{
  OpKind, genesis, add, remove, checkpoint, declare, lock, unlock, OpVersion, is_v4, plate_kind_op,
  kind_byte, kind_of_byte,
}
use fgtw.Fleet.Signing.{bundle_kind_op}
use fgtw.Fleet.Wire.{
  VsfType, u, hp_value, hb, ke, ge, e, other, egg_values, bundle_values, plate_value, plate_values,
}
use fgtw.Fleet.Wire.Values.{VsfReads, WireError, bad_plate, take_32}
use fgtw.Fleet.Wire.Parse.{
  read_bundle, parse_bundle, parse_plate_kind, read_plate, parse_plate, parse_eggs,
}
use fgtw.Fleet.Wire.Carries.{IsBundle, IsPlate, IsPlateKind}

-- Values that no `ge` and no `e` begins.
abbrev pub quiet : List VsfType → Bool
quiet (ge b ∷ vs) = false
quiet (e et ∷ vs) = false
quiet _ = true

pub take_32-Is32 : (b : Bytes) (why : WireError) → Is32 b → take_32 b why ≡ ok b
unfolding take_32
take_32-Is32 b why h = ground (arith, h)

pub kind_of_byte-kind_byte : (kind : OpKind) → kind_of_byte (kind_byte kind % 256) ≡ some kind
unfolding kind_of_byte kind_byte
kind_of_byte-kind_byte genesis = refl
kind_of_byte-kind_byte add = refl
kind_of_byte-kind_byte remove = refl
kind_of_byte-kind_byte checkpoint = refl
kind_of_byte-kind_byte declare = refl
kind_of_byte-kind_byte lock = refl
kind_of_byte-kind_byte unlock = refl

quiet-egg_values : (sigs : List Egg) → quiet (egg_values sigs) ≡ true
unfolding egg_values
quiet-egg_values [] = refl
quiet-egg_values (egg ∷ sigs) = refl

quiet-plate_value :
    (plate : Option Bytes) (vs : List VsfType)
    → quiet vs ≡ true
    → quiet (plate_value plate ++ vs) ≡ true
quiet-plate_value none vs h = h
quiet-plate_value (some b) vs h = refl

-- The values of a plate, once the kind and the version are tested.
plates_if : Bool → Bool → ℕ → Option Bytes → List VsfType
plates_if has stated k plate =
    if has then (if stated then u k false ∷ [] else []) ++ plate_value plate else []

pub quiet-plate_values :
    (version : OpVersion) (kind : OpKind) (k : ℕ) (plate : Option Bytes) (sigs : List Egg)
    → quiet (plate_values version kind k plate ++ egg_values sigs) ≡ true
unfolding plate_values
quiet-plate_values version kind k plate sigs = elim (Bool-cases (plate_kind_op kind)) [
  | inl has ↦ elim (Bool-cases (is_v4 version)) [
    | inl stated ↦ rw (has, stated) refl
    | inr bare ↦ rw (has, bare) (quiet-plate_value plate (egg_values sigs) (quiet-egg_values sigs))
  ]
  | inr lacks ↦ rw lacks (quiet-egg_values sigs)
]

module _ (p : Primitives) (reads : VsfReads) where
  read_bundle-quiet : (vs : List VsfType) → quiet vs ≡ true → read_bundle p reads vs ≡ ok (none, vs)
  read_bundle-quiet [] h = refl
  read_bundle-quiet (u n f ∷ vs) h = refl
  read_bundle-quiet (hp_value b ∷ vs) h = refl
  read_bundle-quiet (hb b ∷ vs) h = refl
  read_bundle-quiet (ke b ∷ vs) h = refl
  read_bundle-quiet (ge b ∷ vs) h = cc
  read_bundle-quiet (e et ∷ vs) h = cc
  read_bundle-quiet (other n ∷ vs) h = refl

  pub parse_bundle-bundle_values :
      (kind : OpKind) (bundle : Option KeyBundle) (rest : List VsfType)
      → IsBundle p kind bundle
      → quiet rest ≡ true
      → parse_bundle p reads kind (bundle_values kind bundle ++ rest) ≡ ok (bundle, rest)
  unfolding parse_bundle
  parse_bundle-bundle_values kind none rest made quiet_rest =
      elim (Bool-cases (bundle_kind_op kind)) [
        | inl has ↦ rw has (read_bundle-quiet rest quiet_rest)
        | inr lacks ↦ rw lacks refl
      ]
  parse_bundle-bundle_values kind (some b) rest (has, (ks, made), few, fits) quiet_rest =
      rw (has, from_bytes-to_bytes p ks b made few fits) refl

  pub parse_plate_kind-plate_values :
      (version : OpVersion) (kind : OpKind) (k : ℕ) (plate : Option Bytes) (rest : List VsfType)
      → IsPlateKind version kind k
      → parse_plate_kind p reads version kind (plate_values version kind k plate ++ rest)
        ≡ ok (k, (if plate_kind_op kind then plate_value plate else []) ++ rest)
  unfolding parse_plate_kind plate_values
  parse_plate_kind-plate_values version kind k plate rest (fits, unstated_else) =
      elim (Bool-cases (plate_kind_op kind)) [
        | inl has ↦ elim (Bool-cases (is_v4 version)) [
          | inl stated ↦
              let small : k % 256 ≡ k = omega (arith, fits) in rw (has, stated, small) refl
          | inr bare ↦
              rw (has, bare)
                (ap (λ n. ok (n, plate_value plate ++ rest)) (sym (unstated_else (rw bare refl))))
        ]
        | inr lacks ↦ elim (Bool-cases (is_v4 version)) [
          | inl stated ↦
              rw (lacks, stated)
                (ap (λ n. ok (n, rest)) (sym (unstated_else (rw (stated, lacks) refl))))
          | inr bare ↦
              rw (lacks, bare) (ap (λ n. ok (n, rest)) (sym (unstated_else (rw bare refl))))
        ]
      ]

  read_plate-egg_values :
      (version : OpVersion) (sigs : List Egg)
      → read_plate p reads version (egg_values sigs) ≡ ok (none, egg_values sigs)
  unfolding egg_values
  read_plate-egg_values version [] = refl
  read_plate-egg_values version (egg ∷ sigs) = refl

  pub parse_plate-plate_value :
      (version : OpVersion) (kind : OpKind) (plate : Option Bytes) (sigs : List Egg)
      → IsPlate version kind plate
      → parse_plate p reads version kind
          ((if plate_kind_op kind then plate_value plate else []) ++ egg_values sigs)
        ≡ ok (plate, egg_values sigs)
  unfolding parse_plate
  parse_plate-plate_value version kind none sigs signed = elim (Bool-cases (plate_kind_op kind)) [
    | inl has ↦ rw has (read_plate-egg_values version sigs)
    | inr lacks ↦ rw lacks refl
  ]
  parse_plate-plate_value version kind (some b) sigs (signs, has, b32) =
      rw (has, signs, take_32-Is32 b bad_plate b32) refl

  pub parse_eggs-egg_values :
      (sigs : List Egg)
      → All (λ (egg : Egg). egg.scheme < 256) sigs
      → parse_eggs p reads (egg_values sigs) ≡ ok sigs
  unfolding parse_eggs egg_values
  parse_eggs-egg_values [] fits = refl
  parse_eggs-egg_values (egg ∷ sigs) (fit, fits) =
      let small : egg.scheme % 256 ≡ egg.scheme = omega (arith, fit) in
      rw (small, parse_eggs-egg_values sigs fits) refl
