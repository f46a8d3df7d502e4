-- ===== src/Fleet/Op.antt =====
-- src/fleet.rs: the op of a fleet chain, its kinds and versions, and the plate vocabulary.
use fgtw.Base.{ℕ, Bool, true, false, Option, none, some, List, ◌==◌, leb, if◌then◌else◌}
use fgtw.Base.Bytes.{Bytes}
use fgtw.Base.Int.{ℤ}
use fgtw.Base.Text.{codes}
use fgtw.Primitives.{Egg}
use fgtw.Pq.Bundle.{KeyBundle}

pub data OpKind : Type 0 where
  genesis add remove checkpoint declare lock unlock : OpKind

-- `kind as u8`
unfoldable pub kind_byte : OpKind → ℕ
kind_byte genesis = 0
kind_byte add = 1
kind_byte remove = 2
kind_byte checkpoint = 3
kind_byte declare = 4
kind_byte lock = 5
kind_byte unlock = 6

-- `OpKind::from_u8`
unfoldable pub kind_of_byte : ℕ → Option OpKind
kind_of_byte v =
    if v == 0
    then some genesis
    else if v == 1
    then some add
    else if v == 2
    then some remove
    else if v == 3
    then some checkpoint
    else if v == 4
    then some declare
    else if v == 5
    then some lock
    else if v == 6
    then some unlock
    else none

pub data OpVersion : Type 0 where
  v1 v2 v3 v4 : OpVersion

unfoldable pub version_byte : OpVersion → ℕ
version_byte v1 = 1
version_byte v2 = 2
version_byte v3 = 3
version_byte v4 = 4

-- `OpVersion::from_byte`
unfoldable pub version_of_byte : ℕ → Option OpVersion
version_of_byte b =
    if b == 1
    then some v1
    else if b == 2
    then some v2
    else if b == 3
    then some v3
    else if b == 4
    then some v4
    else none

-- `OpVersion::domain`
unfoldable pub domain : OpVersion → Bytes
domain v1 = codes "PHOTON_FLEET_OP_v1"
domain v2 = codes "PHOTON_FLEET_OP_v2"
domain v3 = codes "PHOTON_FLEET_OP_v3"
domain v4 = codes "PHOTON_FLEET_OP_v4"

abbrev pub plated : OpVersion → Bool
plated v3 = true
plated v4 = true
plated _ = false

abbrev pub framed : OpVersion → Bool
framed v1 = false
framed _ = true

-- `version == OpVersion::V4`
abbrev pub is_v4 : OpVersion → Bool
is_v4 v4 = true
is_v4 _ = false

-- `mod plate`
abbrev pub unstated : ℕ
unstated = 0

abbrev pub pipe_kind : ℕ
pipe_kind = 5

unfoldable pub plate_level : ℕ → Option ℕ
plate_level kind =
    if kind == 1
    then some 0
    else if kind == 2
    then some 1
    else if kind == 3
    then some 2
    else if kind == 4
    then some 3
    else if kind == 5
    then some 4
    else none

unfoldable pub plate_known : ℕ → Bool
plate_known kind = leb kind pipe_kind

-- `plate_kind_op`
abbrev pub plate_kind_op : OpKind → Bool
plate_kind_op genesis = true
plate_kind_op add = true
plate_kind_op declare = true
plate_kind_op _ = false

pub record FleetOp : Type 0 where
  pub handle_proof : Bytes
  pub prev_hash : Bytes
  pub kind : OpKind
  pub device_pubkey : Bytes
  pub eagle_time : ℤ
  pub signer_pubkey : Bytes
  pub identity_pubkey : Bytes
  pub identity_sig : Bytes
  pub consent_t : ℤ
  pub consent : List Egg
  pub ckpt_k : ℕ
  pub ckpt_commit : Bytes
  pub ckpt_fanout_epoch : ℕ
  pub sigs : List Egg
  pub version : OpVersion
  pub bundle : Option KeyBundle
  pub plate : Option Bytes
  pub plate_kind : ℕ
