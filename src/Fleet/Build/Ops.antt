-- ===== src/Fleet/Build/Ops.antt =====
-- src/fleet.rs `impl MembershipBlob`: the builders.
use fgtw.Base.{ℕ, Option, none, some, List, [], ◌∷◌, ◌++◌}
use fgtw.Base.Bytes.{Bytes, zero32}
use fgtw.Base.Int.{ℤ}
use fgtw.Primitives.{Primitives, Egg}
use fgtw.Pq.Scheme.{mask_base}
use fgtw.Pq.Bundle.{KeyBundle, unwrap_or, mask}
use fgtw.Fleet.Op.{
  FleetOp, OpKind, genesis, add, remove, checkpoint, declare, lock, unlock, unstated,
}
use fgtw.Fleet.Signing.{bundle_or_ed}
use fgtw.Fleet.Query.{map_some, MembershipBlob, head, handle_proof, declared_mask}
use fgtw.Fleet.Build.Signer.{FleetSigner, Draft, sign_op_plated}

-- What `sign_op` passes on to `sign_op_plated` for an op that carries nothing more.
abbrev pub bare_draft : Bytes → Bytes → OpKind → Bytes → ℤ → Draft
bare_draft handle_proof prev_hash kind device t = record {
  handle_proof = handle_proof;
  prev_hash = prev_hash;
  kind = kind;
  device_pubkey = device;
  eagle_time = t;
  identity_pubkey = zero32;
  identity_seed = none;
  consent = none;
  checkpoint = none;
  bundle = none;
  plate = none;
  plate_kind = unstated;
}

-- `handle_proof().unwrap_or([0; 32])`
unfoldable pub chain_identity : MembershipBlob → Bytes
chain_identity ops = unwrap_or zero32 (handle_proof ops)

module _ (p : Primitives) where
  -- `genesis`: the identity key signs too.
  unfoldable pub genesis_v1 : FleetSigner → Bytes → Bytes → ℤ → MembershipBlob
  genesis_v1 key handle_proof identity_seed t =
      sign_op_plated p key
        (record (bare_draft handle_proof zero32 genesis key.public t) {
          identity_pubkey = p.dalek_public identity_seed;
          identity_seed = some identity_seed;
        })
        (mask_base p)
      ∷ []

  unfoldable pub genesis_v2_plated :
      FleetSigner → Bytes → Bytes → ℤ → Option Bytes → ℕ → MembershipBlob
  genesis_v2_plated key handle_proof identity_seed t plate plate_kind =
      sign_op_plated p key
        (record (bare_draft handle_proof zero32 genesis key.public t) {
          identity_pubkey = p.dalek_public identity_seed;
          plate = plate;
          plate_kind = plate_kind;
        })
        (mask_base p)
      ∷ []

  unfoldable pub genesis_v2 : FleetSigner → Bytes → Bytes → ℤ → MembershipBlob
  unfolding genesis_v2_plated
  genesis_v2 key handle_proof identity_seed t =
      genesis_v2_plated key handle_proof identity_seed t none unstated

  -- The declare op. `declare_plated` and `lock_op` index the first op, which panics (`none`) on an
  -- empty chain.
  unfoldable pub declare_op : MembershipBlob → FleetSigner → ℤ → Option Bytes → ℕ → Bytes → FleetOp
  declare_op ops key t plate plate_kind identity =
      let bundle = bundle_or_ed p key.public key.bundle in
      sign_op_plated p key
        (record (bare_draft identity (head p ops) declare key.public t) {
          bundle = some bundle;
          plate = plate;
          plate_kind = plate_kind;
        })
        (mask bundle)

  unfoldable pub declare_plated :
      MembershipBlob → FleetSigner → ℤ → Option Bytes → ℕ → Option MembershipBlob
  declare_plated ops key t plate plate_kind =
      map_some (λ identity. ops ++ declare_op ops key t plate plate_kind identity ∷ [])
        (handle_proof ops)

  unfoldable pub declare_keys : MembershipBlob → FleetSigner → ℤ → Option MembershipBlob
  declare_keys ops key t = declare_plated ops key t none unstated

  unfoldable pub lock_op : MembershipBlob → FleetSigner → Bytes → ℤ → OpKind → Option MembershipBlob
  lock_op ops signer device t kind =
      map_some
        (λ identity.
          ops
          ++ sign_op_plated p signer (bare_draft identity (head p ops) kind device t)
              (declared_mask p ops signer.public)
            ∷ [])
        (handle_proof ops)

  unfoldable pub lock_device : MembershipBlob → FleetSigner → Bytes → ℤ → Option MembershipBlob
  lock_device ops signer device t = lock_op ops signer device t lock

  unfoldable pub unlock_device : MembershipBlob → FleetSigner → Bytes → ℤ → Option MembershipBlob
  unlock_device ops signer device t = lock_op ops signer device t unlock

  unfoldable pub add_with :
      MembershipBlob
      → FleetSigner
      → Bytes
      → ℤ
      → ℤ
      → List Egg
      → Option KeyBundle
      → Option Bytes
      → ℕ
      → MembershipBlob
  add_with ops key device t consent_t consent bundle plate plate_kind =
      ops
      ++ sign_op_plated p key
          (record (bare_draft (chain_identity ops) (head p ops) add device t) {
            consent = some (consent_t, consent);
            bundle = bundle;
            plate = plate;
            plate_kind = plate_kind;
          })
          (declared_mask p ops key.public)
        ∷ []

  unfoldable pub add_device :
      MembershipBlob → FleetSigner → Bytes → ℤ → ℤ → List Egg → MembershipBlob
  add_device ops key device t consent_t consent =
      add_with ops key device t consent_t consent none none unstated

  unfoldable pub add_declared :
      MembershipBlob → FleetSigner → Bytes → ℤ → ℤ → List Egg → KeyBundle → MembershipBlob
  add_declared ops key device t consent_t consent bundle =
      add_with ops key device t consent_t consent (some bundle) none unstated

  unfoldable pub depart : MembershipBlob → FleetSigner → ℤ → MembershipBlob
  depart ops key t =
      ops
      ++ sign_op_plated p key (bare_draft (chain_identity ops) (head p ops) remove key.public t)
          (declared_mask p ops key.public)
        ∷ []

  unfoldable pub remove_consented :
      MembershipBlob → FleetSigner → Bytes → ℤ → ℤ → List Egg → MembershipBlob
  remove_consented ops approver leaving t consent_t consent =
      ops
      ++ sign_op_plated p approver
          (record (bare_draft (chain_identity ops) (head p ops) remove leaving t) {
            consent = some (consent_t, consent);
          })
          (declared_mask p ops approver.public)
        ∷ []

  unfoldable pub append_checkpoint :
      MembershipBlob → FleetSigner → ℤ → ℕ → Bytes → ℕ → MembershipBlob
  append_checkpoint ops key t k commit fanout_epoch =
      ops
      ++ sign_op_plated p key
          (record (bare_draft (chain_identity ops) (head p ops) checkpoint key.public t) {
            checkpoint = some (k, commit, fanout_epoch);
          })
          (declared_mask p ops key.public)
        ∷ []
