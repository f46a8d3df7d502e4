-- ===== src/Fleet/Wire/RoundTrip.antt =====
-- src/fleet.rs `parse_op` reads what `op_field_values` writes.
use fgtw.Base.{◌≡◌, refl, List, ◌∷◌, ◌++◌, arith, true, false}
use fgtw.Base.Bytes.{Bytes}
use fgtw.Base.Result.{ok}
use fgtw.Primitives.{Primitives, EggsRoundTrip}
use fgtw.Fleet.Op.{OpVersion, v1, v2, v3, v4, FleetOp, version_byte, kind_byte, version_of_byte}
use fgtw.Fleet.Wire.{
  VsfType, u, hp_value, hb, ke, e, e6, et_to_osc, version_values, tail_values, op_field_values,
  bundle_values, plate_values, egg_values,
}
use fgtw.Fleet.Wire.Values.{VsfReads, ReadsU8, Common, bad_hp, bad_prev, bad_device, bad_signer}
use fgtw.Fleet.Wire.Parse.{parse_version, parse_common, parse_op}
use fgtw.Fleet.Wire.Carries.{IsWireOp}
use fgtw.Fleet.Wire.Stages.{
  quiet, take_32-Is32, kind_of_byte-kind_byte, quiet-plate_values, parse_bundle-bundle_values,
  parse_plate_kind-plate_values, parse_plate-plate_value, parse_eggs-egg_values,
}
use fgtw.Fleet.Wire.Kinds.{parse_extras-kind_values, bundle_values-Behind}

abbrev common_of : FleetOp → Common
common_of op = record {
  handle_proof = op.handle_proof;
  prev_hash = op.prev_hash;
  kind = op.kind;
  device_pubkey = op.device_pubkey;
  eagle_time = op.eagle_time;
  signer_pubkey = op.signer_pubkey;
}

module _ (p : Primitives) (reads : VsfReads) where
  parse_version-version_values :
      (version : OpVersion) (hp : Bytes) (rest : List VsfType)
      → ReadsU8 reads
      → parse_version p reads (version_values version ++ (hp_value hp ∷ rest))
        ≡ ok (version, hp_value hp ∷ rest)
  unfolding parse_version version_byte version_of_byte
  parse_version-version_values v1 hp rest law = refl
  parse_version-version_values v2 hp rest law = rw (law.reads_u 2 (omega arith)) refl
  parse_version-version_values v3 hp rest law = rw (law.reads_u 3 (omega arith)) refl
  parse_version-version_values v4 hp rest law = rw (law.reads_u 4 (omega arith)) refl

  -- The six common values are read as the op's, and leave the rest.
  parse_common-op :
      (op : FleetOp) (rest : List VsfType)
      → IsWireOp p op
      → parse_common p reads (
          hp_value op.handle_proof
          ∷ hb op.prev_hash
          ∷ u (kind_byte op.kind) false
          ∷ ke op.device_pubkey
          ∷ e (e6 op.eagle_time)
          ∷ ke op.signer_pubkey
          ∷ rest)
        ≡ ok (common_of op, rest)
  unfolding parse_common et_to_osc
  parse_common-op op rest wire =
      rw
        (
          take_32-Is32 op.handle_proof bad_hp wire.handle_proof32,
          take_32-Is32 op.prev_hash bad_prev wire.prev_hash32,
          kind_of_byte-kind_byte op.kind,
          take_32-Is32 op.device_pubkey bad_device wire.device32,
          take_32-Is32 op.signer_pubkey bad_signer wire.signer32,
        )
        refl

  -- An op whose fields have their widths, with nothing in a field that its kind does not write, is read
  -- back from its values, if the vsf crate reads back a small `u` and its egg codec what it writes.
  pub parse_op-op_field_values :
      (op : FleetOp)
      → ReadsU8 reads
      → EggsRoundTrip p
      → IsWireOp p op
      → parse_op p reads (op_field_values p op) ≡ ok op
  unfolding parse_op op_field_values
  parse_op-op_field_values op law codec wire =
      let eggs = egg_values op.sigs in
      let plates = plate_values op.version op.kind op.plate_kind op.plate ++ eggs in
      let calm : quiet plates ≡ true =
        quiet-plate_values op.version op.kind op.plate_kind op.plate op.sigs in
      let bundled = bundle_values op.kind op.bundle ++ plates in
      rw
        (
          parse_version-version_values op.version op.handle_proof
              (hb op.prev_hash
                ∷ u (kind_byte op.kind) false
                ∷ ke op.device_pubkey
                ∷ e (e6 op.eagle_time)
                ∷ ke op.signer_pubkey
                ∷ tail_values p op)
              law,
          parse_common-op op (tail_values p op) wire,
          parse_extras-kind_values p reads op.kind op bundled codec wire.kind_fields
              (bundle_values-Behind p reads op.kind op.bundle plates calm),
          parse_bundle-bundle_values p reads op.kind op.bundle plates wire.bundle_made calm,
          parse_plate_kind-plate_values p reads op.version op.kind op.plate_kind op.plate eggs
              wire.plate_kind_fits,
          parse_plate-plate_value p reads op.version op.kind op.plate op.sigs wire.plate_signed,
          parse_eggs-egg_values p reads op.sigs wire.schemes_fit,
        )
        refl
