-- ===== src/Fleet/Wire.antt =====
-- src/fleet.rs `op_field_values` and `parse_op`: an op as the values of one vsf field, and back.
pub mod Values
pub mod Parse
pub mod Carries
pub mod Stages
pub mod Kinds
pub mod RoundTrip
use fgtw.Base.{
  ℕ, suc, ◌-◌, ◌%◌, ◌^◌, Bool, true, false, not, ◌&&◌, Option, none, some, List, [], ◌∷◌, ◌++◌,
  if◌then◌else◌,
}
use fgtw.Base.Bytes.{Bytes}
use fgtw.Base.Int.{ℤ, pos, negsuc, i64_of}
use fgtw.Primitives.{Primitives, Egg}
use fgtw.Pq.Bundle.{KeyBundle, to_bytes}
use fgtw.Fleet.Op.{
  OpKind, genesis, add, remove, checkpoint, OpVersion, v1, FleetOp, kind_byte, version_byte, framed,
  is_v4, plate_kind_op,
}
use fgtw.Fleet.Signing.{bundle_kind_op}

-- `vsf::types::EtType`, as `et_to_osc` tells its forms apart.
pub data EtType : Type 0 where
  e5 e6 e7 : ℤ → EtType
  float : EtType

-- `vsf::VsfType`, as this code tells its forms apart; the others are numbered.
pub data VsfType : Type 0 where
  u : ℕ → Bool → VsfType
  hp_value hb ke ge : Bytes → VsfType
  e : EtType → VsfType
  other : ℕ → VsfType

-- `o as i64`
unfoldable pub as_i64 : ℤ → ℤ
as_i64 (pos n) = i64_of (n % 2 ^ 64)
as_i64 (negsuc n) = i64_of (2 ^ 64 - suc (n % 2 ^ 64))

unfoldable pub et_to_osc : EtType → ℤ
unfolding as_i64
et_to_osc (e5 o) = as_i64 o
et_to_osc (e6 o) = o
et_to_osc (e7 o) = as_i64 o
et_to_osc float = pos 0

-- `first().map(|e| e.sig.clone()).unwrap_or_default()`
abbrev pub first_sig : List Egg → Bytes
first_sig [] = []
first_sig (egg ∷ eggs) = egg.sig

unfoldable pub egg_values : List Egg → List VsfType
egg_values [] = []
egg_values (egg ∷ eggs) = u egg.scheme false ∷ ge egg.sig ∷ egg_values eggs

abbrev pub bundle_values : OpKind → Option KeyBundle → List VsfType
bundle_values kind none = []
bundle_values kind (some b) = if bundle_kind_op kind then ge (to_bytes b) ∷ [] else []

abbrev pub plate_value : Option Bytes → List VsfType
plate_value none = []
plate_value (some plate) = hb plate ∷ []

unfoldable pub plate_values : OpVersion → OpKind → ℕ → Option Bytes → List VsfType
plate_values version kind plate_kind plate =
    if plate_kind_op kind
    then (if is_v4 version then u plate_kind false ∷ [] else []) ++ plate_value plate
    else []

-- The signature of a v1 genesis, when there is one.
abbrev pub identity_sig_value : Bytes → List VsfType
identity_sig_value [] = []
identity_sig_value (b ∷ bs) = ge (b ∷ bs) ∷ []

-- The version, but for v1.
abbrev pub version_values : OpVersion → List VsfType
version_values v1 = []
version_values version = u (version_byte version) false ∷ []

module _ (p : Primitives) where
  unfoldable pub consent_to_wire : OpVersion → List Egg → Bytes
  consent_to_wire version consent =
      if framed version then p.eggs_to_bytes consent else first_sig consent

  -- A Remove writes its consent when it has one.
  abbrev pub leave_values : OpVersion → ℤ → List Egg → List VsfType
  leave_values version t [] = []
  leave_values version t (egg ∷ eggs) = e (e6 t) ∷ ge (consent_to_wire version (egg ∷ eggs)) ∷ []

  -- What each kind adds behind the six common values.
  unfoldable pub kind_values : OpKind → FleetOp → List VsfType
  kind_values genesis op = ke op.identity_pubkey ∷ identity_sig_value op.identity_sig
  kind_values add op = e (e6 op.consent_t) ∷ ge (consent_to_wire op.version op.consent) ∷ []
  kind_values remove op = leave_values op.version op.consent_t op.consent
  kind_values checkpoint op =
      u op.ckpt_k false ∷ hb op.ckpt_commit ∷ u op.ckpt_fanout_epoch false ∷ []
  kind_values _ op = []

  -- What follows the six common values.
  unfoldable pub tail_values : FleetOp → List VsfType
  unfolding kind_values plate_values egg_values
  tail_values op =
      kind_values op.kind op
      ++ (bundle_values op.kind op.bundle
          ++ (plate_values op.version op.kind op.plate_kind op.plate ++ egg_values op.sigs))

  unfoldable pub op_field_values : FleetOp → List VsfType
  unfolding tail_values
  op_field_values op =
      version_values op.version
      ++ (hp_value op.handle_proof
          ∷ hb op.prev_hash
          ∷ u (kind_byte op.kind) false
          ∷ ke op.device_pubkey
          ∷ e (e6 op.eagle_time)
          ∷ ke op.signer_pubkey
          ∷ tail_values op)
