-- ===== src/Fleet/Wire/Values.antt =====
-- src/fleet.rs: what `parse_op` reads from single values, its messages, and its variables.
use fgtw.Base.{ℕ, ◌<◌, ◌≡◌, false, Option, some, List, [], ◌==◌, length, if◌then◌else◌}
use fgtw.Base.Bytes.{Bytes, zero32}
use fgtw.Base.Int.{ℤ, pos}
use fgtw.Base.Result.{Result, ok, err}
use fgtw.Primitives.{Egg}
use fgtw.Pq.Bundle.{BundleError, KeyBundle}
use fgtw.Fleet.Op.{OpKind}
use fgtw.Fleet.Wire.{VsfType, u, hp_value, hb, ke, ge, e, et_to_osc}

-- `u8::from_vsf_type` and `u64::from_vsf_type` of the vsf crate.
pub record VsfReads : Type 0 where
  pub read_u8 : VsfType → Option ℕ
  pub read_u64 : VsfType → Option ℕ

-- A `u` that fits a byte is read as that byte.
pub record ReadsU8 (reads : VsfReads) : Type 0 where
  pub reads_u : (n : ℕ) → n < 256 → reads.read_u8 (u n false) ≡ some n

-- The messages of `parse_op` and its `take_*` helpers.
pub data WireError : Type 0 where
  no_values bad_version_type unknown_version too_few : WireError
  bad_hp bad_prev bad_kind_type bad_kind bad_device bad_time bad_signer : WireError
  no_identity bad_identity no_consent_time no_consent_sig remove_no_consent_sig bad_consent :
      WireError
  no_k bad_k no_commit bad_commit no_epoch bad_epoch : WireError
  bad_bundle : BundleError → WireError
  no_plate_kind bad_plate_kind unsigned_plate bad_plate bad_scheme bad_sig : WireError

unfoldable pub take_32 : Bytes → WireError → Result WireError Bytes
take_32 b why = if length b == 32 then ok b else err why

abbrev pub take_hp32 : VsfType → WireError → Result WireError Bytes
take_hp32 (hp_value b) why = take_32 b why
take_hp32 _ why = err why

abbrev pub take_hb32 : VsfType → WireError → Result WireError Bytes
take_hb32 (hb b) why = take_32 b why
take_hb32 _ why = err why

abbrev pub take_ke32 : VsfType → WireError → Result WireError Bytes
take_ke32 (ke b) why = take_32 b why
take_ke32 _ why = err why

abbrev pub take_time : VsfType → Result WireError ℤ
take_time (e et) = ok (et_to_osc et)
take_time _ = err bad_time

abbrev pub take_sig : VsfType → Result WireError Bytes
take_sig (ge s) = ok s
take_sig _ = err bad_sig

-- The six values that every op has.
pub record Common : Type 0 where
  pub handle_proof : Bytes
  pub prev_hash : Bytes
  pub kind : OpKind
  pub device_pubkey : Bytes
  pub eagle_time : ℤ
  pub signer_pubkey : Bytes

-- The values of one kind, in the state that the other kinds leave them in.
pub record Extras : Type 0 where
  pub identity_pubkey : Bytes
  pub identity_sig : Bytes
  pub consent_t : ℤ
  pub consent : List Egg
  pub ckpt_k : ℕ
  pub ckpt_commit : Bytes
  pub ckpt_fanout_epoch : ℕ

abbrev pub no_extras : Extras
no_extras = record {
  identity_pubkey = zero32;
  identity_sig = [];
  consent_t = pos 0;
  consent = [];
  ckpt_k = 0;
  ckpt_commit = zero32;
  ckpt_fanout_epoch = 0;
}

abbrev pub lift_bundle : Result BundleError KeyBundle → Result WireError KeyBundle
lift_bundle (ok b) = ok b
lift_bundle (err why) = err (bad_bundle why)
