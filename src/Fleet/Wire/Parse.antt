-- ===== src/Fleet/Wire/Parse.antt =====
-- src/fleet.rs `parse_op`: the cursor `i` is the list of the values behind it.
use fgtw.Base.{ℕ, ◌%◌, ◌^◌, false, not, ◌&&◌, Option, none, some, List, [], ◌∷◌, if◌then◌else◌}
use fgtw.Base.Bytes.{Bytes}
use fgtw.Base.Int.{ℤ}
use fgtw.Base.Result.{Result, ok, err, ◌>>=◌, ◌>>◌, reject, ok_or}
use fgtw.Primitives.{Primitives, Egg}
use fgtw.Pq.Bundle.{KeyBundle, from_bytes}
use fgtw.Fleet.Op.{
  OpKind, genesis, add, remove, checkpoint, OpVersion, v1, FleetOp, kind_of_byte, version_of_byte,
  plated, framed, is_v4, plate_kind_op, unstated,
}
use fgtw.Fleet.Signing.{bundle_kind_op}
use fgtw.Fleet.Wire.{VsfType, u, hp_value, hb, ge, e, et_to_osc}
use fgtw.Fleet.Wire.Values.{
  VsfReads, WireError, no_values, bad_version_type, unknown_version, too_few, bad_hp, bad_prev,
  bad_kind_type, bad_kind, bad_device, bad_signer, no_identity, bad_identity, no_consent_time,
  no_consent_sig, remove_no_consent_sig, bad_consent, no_k, bad_k, no_commit, bad_commit, no_epoch,
  bad_epoch, no_plate_kind, bad_plate_kind, unsigned_plate, bad_plate, bad_scheme, take_32,
  take_hp32, take_hb32, take_ke32, take_time, take_sig, Common, Extras, no_extras, lift_bundle,
}

module _ (p : Primitives) (reads : VsfReads) where
  -- A byte: `u(v, false)` as `v as u8`, anything else by `u8::from_vsf_type`.
  abbrev pub take_u8 : VsfType → WireError → Result WireError ℕ
  take_u8 (u v false) why = ok (v % 256)
  take_u8 v why = ok_or (reads.read_u8 v) why

  abbrev pub take_u64 : VsfType → WireError → Result WireError ℕ
  take_u64 (u n false) why = ok (n % 2 ^ 64)
  take_u64 v why = ok_or (reads.read_u64 v) why

  unfoldable pub consent_from_wire : OpVersion → Bytes → Result WireError (List Egg)
  consent_from_wire version bytes =
      if framed version
      then ok_or (p.eggs_from_bytes bytes) bad_consent
      else ok (record { scheme = p.ed25519_tag; sig = bytes } ∷ [])

  unfoldable pub parse_version : List VsfType → Result WireError (OpVersion × List VsfType)
  parse_version [] = err no_values
  parse_version (hp_value b ∷ vs) = ok (v1, hp_value b ∷ vs)
  parse_version (v ∷ vs) = do
    n ← ok_or (reads.read_u8 v) bad_version_type
    version ← ok_or (version_of_byte n) unknown_version
    ok (version, vs)

  unfoldable pub parse_common : List VsfType → Result WireError (Common × List VsfType)
  unfolding take_32
  parse_common (hp ∷ prev ∷ k ∷ device ∷ t ∷ signer ∷ rest) = do
    handle_proof ← take_hp32 hp bad_hp
    prev_hash ← take_hb32 prev bad_prev
    byte ← take_u8 k bad_kind_type
    kind ← ok_or (kind_of_byte byte) bad_kind
    device_pubkey ← take_ke32 device bad_device
    eagle_time ← take_time t
    signer_pubkey ← take_ke32 signer bad_signer
    ok (
      record {
        handle_proof = handle_proof;
        prev_hash = prev_hash;
        kind = kind;
        device_pubkey = device_pubkey;
        eagle_time = eagle_time;
        signer_pubkey = signer_pubkey;
      },
      rest,
    )
  parse_common _ = err too_few

  -- The identity's signature, when a `ge` stands there.
  abbrev pub parse_identity : Bytes → List VsfType → Extras × List VsfType
  parse_identity key (ge s ∷ rest) =
      (record no_extras { identity_pubkey = key; identity_sig = s }, rest)
  parse_identity key rest = (record no_extras { identity_pubkey = key }, rest)

  -- A consent's signature, behind its time.
  abbrev pub parse_consent :
      OpVersion → WireError → ℤ → List VsfType → Result WireError (Extras × List VsfType)
  parse_consent version why t (ge s ∷ rest) = do
    eggs ← consent_from_wire version s
    ok (record no_extras { consent_t = t; consent = eggs }, rest)
  parse_consent version why t _ = err why

  abbrev pub parse_genesis : List VsfType → Result WireError (Extras × List VsfType)
  parse_genesis [] = err no_identity
  parse_genesis (v ∷ rest) = do key ← take_ke32 v bad_identity; ok (parse_identity key rest)

  abbrev pub parse_add : OpVersion → List VsfType → Result WireError (Extras × List VsfType)
  parse_add version (e et ∷ rest) = parse_consent version no_consent_sig (et_to_osc et) rest
  parse_add version _ = err no_consent_time

  abbrev pub parse_remove : OpVersion → List VsfType → Result WireError (Extras × List VsfType)
  parse_remove version (e et ∷ rest) =
      parse_consent version remove_no_consent_sig (et_to_osc et) rest
  parse_remove version rest = ok (no_extras, rest)

  abbrev pub parse_epoch : ℕ → Bytes → List VsfType → Result WireError (Extras × List VsfType)
  parse_epoch k commit [] = err no_epoch
  parse_epoch k commit (v ∷ rest) = do
    epoch ← take_u64 v bad_epoch
    ok (record no_extras { ckpt_k = k; ckpt_commit = commit; ckpt_fanout_epoch = epoch }, rest)

  abbrev pub parse_commit : ℕ → List VsfType → Result WireError (Extras × List VsfType)
  parse_commit k [] = err no_commit
  parse_commit k (v ∷ rest) = do commit ← take_hb32 v bad_commit; parse_epoch k commit rest

  abbrev pub parse_checkpoint : List VsfType → Result WireError (Extras × List VsfType)
  parse_checkpoint [] = err no_k
  parse_checkpoint (v ∷ rest) = do k ← take_u64 v bad_k; parse_commit k rest

  unfoldable pub parse_extras :
      OpVersion → OpKind → List VsfType → Result WireError (Extras × List VsfType)
  unfolding take_32 consent_from_wire et_to_osc
  parse_extras version genesis vs = parse_genesis vs
  parse_extras version add vs = parse_add version vs
  parse_extras version remove vs = parse_remove version vs
  parse_extras version checkpoint vs = parse_checkpoint vs
  parse_extras version _ vs = ok (no_extras, vs)

  abbrev pub read_bundle : List VsfType → Result WireError (Option KeyBundle × List VsfType)
  read_bundle (ge b ∷ rest) = do bundle ← lift_bundle (from_bytes p b); ok (some bundle, rest)
  read_bundle rest = ok (none, rest)

  unfoldable pub parse_bundle :
      OpKind → List VsfType → Result WireError (Option KeyBundle × List VsfType)
  parse_bundle kind vs = if bundle_kind_op kind then read_bundle vs else ok (none, vs)

  abbrev pub read_plate_kind : List VsfType → Result WireError (ℕ × List VsfType)
  read_plate_kind [] = err no_plate_kind
  read_plate_kind (v ∷ rest) = do kind ← take_u8 v bad_plate_kind; ok (kind, rest)

  unfoldable pub parse_plate_kind :
      OpVersion → OpKind → List VsfType → Result WireError (ℕ × List VsfType)
  parse_plate_kind version kind vs =
      if is_v4 version && plate_kind_op kind then read_plate_kind vs else ok (unstated, vs)

  abbrev pub read_plate : OpVersion → List VsfType → Result WireError (Option Bytes × List VsfType)
  read_plate version (hb b ∷ rest) = do
    reject (not (plated version)) unsigned_plate
    plate ← take_hb32 (hb b) bad_plate
    ok (some plate, rest)
  read_plate version rest = ok (none, rest)

  unfoldable pub parse_plate :
      OpVersion → OpKind → List VsfType → Result WireError (Option Bytes × List VsfType)
  unfolding take_32
  parse_plate version kind vs = if plate_kind_op kind then read_plate version vs else ok (none, vs)

  unfoldable pub parse_eggs : List VsfType → Result WireError (List Egg)
  parse_eggs [] = ok []
  parse_eggs (v ∷ []) = ok []
  parse_eggs (v ∷ w ∷ rest) = do
    scheme ← take_u8 v bad_scheme
    sig ← take_sig w
    eggs ← parse_eggs rest
    ok (record { scheme = scheme; sig = sig } ∷ eggs)

  unfoldable pub parse_op : List VsfType → Result WireError FleetOp
  unfolding parse_version parse_common parse_extras parse_bundle parse_plate_kind parse_plate
      parse_eggs
  parse_op all = do
    (version, values) ← parse_version all
    (common, values₁) ← parse_common values
    (extras, values₂) ← parse_extras version common.kind values₁
    (bundle, values₃) ← parse_bundle common.kind values₂
    (plate_kind, values₄) ← parse_plate_kind version common.kind values₃
    (plate, values₅) ← parse_plate version common.kind values₄
    sigs ← parse_eggs values₅
    ok (record {
      handle_proof = common.handle_proof;
      prev_hash = common.prev_hash;
      kind = common.kind;
      device_pubkey = common.device_pubkey;
      eagle_time = common.eagle_time;
      signer_pubkey = common.signer_pubkey;
      identity_pubkey = extras.identity_pubkey;
      identity_sig = extras.identity_sig;
      consent_t = extras.consent_t;
      consent = extras.consent;
      ckpt_k = extras.ckpt_k;
      ckpt_commit = extras.ckpt_commit;
      ckpt_fanout_epoch = extras.ckpt_fanout_epoch;
      sigs = sigs;
      version = version;
      bundle = bundle;
      plate = plate;
      plate_kind = plate_kind;
    })
