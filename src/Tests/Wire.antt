-- ===== src/Tests/Wire.antt =====
-- The wire form of an Add that carries everything an op can.
use fgtw.Base.{◌≡◌, refl, ℕ, arith, Option, none, some, replicate}
use fgtw.Base.Result.{ok}
use fgtw.Pq.Scheme.{pubkey_len}
use fgtw.Pq.Bundle.{new, validate, sort_keys, insert_key, has_duplicate, check_lens, find_key}
use fgtw.Fleet.Op.{FleetOp, v4}
use fgtw.Fleet.Wire.{VsfType, u, op_field_values}
use fgtw.Fleet.Wire.Values.{VsfReads, ReadsU8}
use fgtw.Fleet.Wire.Parse.{parse_op}
use fgtw.Fleet.Wire.Carries.{IsWireOp}
use fgtw.Fleet.Wire.RoundTrip.{parse_op-op_field_values}
use fgtw.Tests.Toy.{joining}
use fgtw.Tests.Codec.{coded, codec}
use fgtw.Tests.Pq.{held, bundle}

abbrev number : VsfType → Option ℕ
number (u n f) = some n
number _ = none

abbrev readers : VsfReads
readers = record { read_u8 = number; read_u64 = number }

readers-ReadsU8 : ReadsU8 readers
readers-ReadsU8 = record { reads_u = λ n h. refl }

abbrev laden : FleetOp
laden = record joining {
  prev_hash = replicate 32 5;
  version = v4;
  bundle = some bundle;
  plate = some (replicate 32 6);
  plate_kind = 2;
}

made : new coded held ≡ ok bundle
unfolding new validate sort_keys insert_key has_duplicate check_lens find_key pubkey_len
made = refl

laden-IsWireOp : IsWireOp coded laden
laden-IsWireOp = record {
  handle_proof32 = refl;
  prev_hash32 = refl;
  device32 = refl;
  signer32 = refl;
  kind_fields = (tt, (refl, refl), (refl, refl, refl));
  bundle_made = (
    refl,
    (held, made),
    omega arith,
    ((omega arith, omega arith), ((omega arith, omega arith), tt)),
  );
  plate_kind_fits = (omega arith, λ h. cc);
  plate_signed = (refl, refl, refl);
  schemes_fit = (omega arith, tt);
}

parse_op-op_field_values_example : parse_op coded readers (op_field_values coded laden) ≡ ok laden
parse_op-op_field_values_example =
    parse_op-op_field_values coded readers laden readers-ReadsU8 codec laden-IsWireOp
