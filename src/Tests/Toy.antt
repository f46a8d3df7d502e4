-- ===== src/Tests/Toy.antt =====
-- Stand-ins for the crate's dependencies, and small chains under them.
use fgtw.Base.{ℕ, ◌+◌, ◌%◌, true, none, [], ◌∷◌, replicate}
use fgtw.Base.Bytes.{Bytes, zero32}
use fgtw.Base.Int.{pos}
use fgtw.Primitives.{Primitives, Egg}
use fgtw.Fleet.Op.{FleetOp, OpKind, genesis, add, remove, lock, unlock, v2, unstated}
use fgtw.Fleet.Signing.{chain_hash, framed_sigs}

abbrev pub sum : Bytes → ℕ
sum [] = 0
sum (b ∷ bs) = b + sum bs

-- Any signature of the right length is good, and a digest is a byte sum, 32 times.
abbrev pub toy : Primitives
toy = record {
  ed25519_tag = 0;
  falcon512_tag = 1;
  sphincs_plus_tag = 2;
  eggs_to_bytes = λ eggs. framed_sigs eggs;
  eggs_from_bytes = λ b. none;
  oscillations_per_second = 1420407826;
  blake3 = λ b. replicate 32 (sum b % 251);
  derive_key = λ context b. replicate 32 (sum b % 241);
  dalek_verify = λ key msg sig. true;
  dalek_public = λ seed. seed;
  dalek_sign = λ seed msg. replicate 64 9;
  falcon_verify = λ key msg sig. true;
  slh_dsa_verify = λ key msg sig. true;
  falcon_key_len = 897;
  falcon_sig_len = 666;
  slh_dsa_key_len = 32;
  slh_dsa_sig_len = 7856;
}

abbrev pub phone : Bytes
phone = replicate 32 1

abbrev pub laptop : Bytes
laptop = replicate 32 2

abbrev pub egg : Egg
egg = record { scheme = 0; sig = replicate 64 9 }

abbrev pub founding : FleetOp
founding = record {
  handle_proof = replicate 32 7;
  prev_hash = zero32;
  kind = genesis;
  device_pubkey = phone;
  eagle_time = pos 100;
  signer_pubkey = phone;
  identity_pubkey = replicate 32 8;
  identity_sig = [];
  consent_t = pos 0;
  consent = [];
  ckpt_k = 0;
  ckpt_commit = zero32;
  ckpt_fanout_epoch = 0;
  sigs = egg ∷ [];
  version = v2;
  bundle = none;
  plate = none;
  plate_kind = unstated;
}

-- An op of the phone about the laptop, behind `prev`.
abbrev pub about_laptop : OpKind → FleetOp → ℕ → FleetOp
about_laptop kind prev t = record founding {
  prev_hash = chain_hash toy prev;
  kind = kind;
  device_pubkey = laptop;
  eagle_time = pos t;
  identity_pubkey = zero32;
}

abbrev pub joining : FleetOp
joining = record (about_laptop add founding 200) { consent_t = pos 190; consent = egg ∷ [] }

abbrev pub locking : FleetOp
locking = about_laptop lock joining 300

abbrev pub unlocking : FleetOp
unlocking = about_laptop unlock locking 400

abbrev pub leaving : FleetOp
leaving = record (about_laptop remove unlocking 500) { consent_t = pos 490; consent = egg ∷ [] }
