-- ===== src/Fleet/Build/Signer.antt =====
-- src/fleet.rs `sign_op_plated`, and the trait `FleetSigner` of src/pq.rs with its plain-keypair
-- implementation.
use fgtw.Base.{ℕ, ◌||◌, not, Option, none, some, List, [], ◌∷◌, ◌==◌, if◌then◌else◌}
use fgtw.Base.Bytes.{Bytes, zero32}
use fgtw.Base.Int.{ℤ, pos}
use fgtw.Primitives.{Primitives, Egg}
use fgtw.Pq.Scheme.{Mask}
use fgtw.Pq.Bundle.{KeyBundle, is_some}
use fgtw.Fleet.Op.{FleetOp, OpKind, v2, v4, unstated}
use fgtw.Fleet.Signing.{signing_bytes}

-- The trait: the device's public key, the eggs over a message under a mask, and the bundle.
pub record FleetSigner : Type 0 where
  pub public : Bytes
  pub eggs : Bytes → Mask → List Egg
  pub bundle : Option KeyBundle

-- `impl FleetSigner for Keypair`
unfoldable pub keypair_signer : Primitives → Bytes → FleetSigner
keypair_signer p seed = record {
  public = p.dalek_public seed;
  eggs = λ msg schemes. record { scheme = p.ed25519_tag; sig = p.dalek_sign seed msg } ∷ [];
  bundle = none;
}

-- What an op carries beside the signer: the parameters of `sign_op_plated`.
pub record Draft : Type 0 where
  pub handle_proof : Bytes
  pub prev_hash : Bytes
  pub kind : OpKind
  pub device_pubkey : Bytes
  pub eagle_time : ℤ
  pub identity_pubkey : Bytes
  -- the seed of `identity_signer`
  pub identity_seed : Option Bytes
  pub consent : Option (ℤ × List Egg)
  pub checkpoint : Option (ℕ × Bytes × ℕ)
  pub bundle : Option KeyBundle
  pub plate : Option Bytes
  pub plate_kind : ℕ

abbrev pub consent_or : Option (ℤ × List Egg) → ℤ × List Egg
consent_or none = (pos 0, [])
consent_or (some c) = c

abbrev pub checkpoint_or : Option (ℕ × Bytes × ℕ) → ℕ × Bytes × ℕ
checkpoint_or none = (0, zero32, 0)
checkpoint_or (some c) = c

-- The op before it is signed.
unfoldable pub unsigned_op : Draft → Bytes → FleetOp
unsigned_op d signer = record {
  handle_proof = d.handle_proof;
  prev_hash = d.prev_hash;
  kind = d.kind;
  device_pubkey = d.device_pubkey;
  eagle_time = d.eagle_time;
  signer_pubkey = signer;
  identity_pubkey = d.identity_pubkey;
  identity_sig = [];
  consent_t = (consent_or d.consent).0;
  consent = (consent_or d.consent).1;
  ckpt_k = (checkpoint_or d.checkpoint).0;
  ckpt_commit = (checkpoint_or d.checkpoint).1;
  ckpt_fanout_epoch = (checkpoint_or d.checkpoint).2;
  sigs = [];
  version = if is_some d.plate || not (d.plate_kind == unstated) then v4 else v2;
  bundle = d.bundle;
  plate = d.plate;
  plate_kind = d.plate_kind;
}

module _ (p : Primitives) where
  unfoldable pub cosign : Option Bytes → Bytes → Bytes
  cosign none msg = []
  cosign (some seed) msg = p.dalek_sign seed msg

  unfoldable pub sign_op_plated : FleetSigner → Draft → Mask → FleetOp
  sign_op_plated signer d sign_with =
      let op = unsigned_op d signer.public in
      let msg = signing_bytes p op in
      record op { sigs = signer.eggs msg sign_with; identity_sig = cosign d.identity_seed msg }
