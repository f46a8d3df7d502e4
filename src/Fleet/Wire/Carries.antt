-- ===== src/Fleet/Wire/Carries.antt =====
-- The ops that src/fleet.rs `op_field_values` writes whole: each field has its width, and a field that
-- the op's kind does not write has the value that `parse_op` gives it.
use fgtw.Base.{ℕ, ◌≡◌, ◌<◌, ◌^◌, true, false, ◌&&◌, Option, none, some, List, [], ◌∷◌, length, All}
use fgtw.Base.Bytes.{Bytes, zero32, Is32}
use fgtw.Base.Int.{ℤ, pos}
use fgtw.Base.Result.{ok}
use fgtw.Primitives.{Primitives, Egg}
use fgtw.Pq.Bundle.{Key, KeyBundle, new}
use fgtw.Pq.RoundTrip.{Fits}
use fgtw.Fleet.Op.{
  OpKind, genesis, add, remove, checkpoint, OpVersion, v1, FleetOp, plated, is_v4, plate_kind_op,
  unstated,
}
use fgtw.Fleet.Signing.{bundle_kind_op}

abbrev pub NoIdentity : FleetOp → Type 0
NoIdentity op = (op.identity_pubkey ≡ zero32) × (op.identity_sig ≡ [])

abbrev pub NoConsent : FleetOp → Type 0
NoConsent op = (op.consent_t ≡ pos 0) × (op.consent ≡ [])

abbrev pub NoCheckpoint : FleetOp → Type 0
NoCheckpoint op = (op.ckpt_k ≡ 0) × (op.ckpt_commit ≡ zero32) × (op.ckpt_fanout_epoch ≡ 0)

-- A plate's kind stands under v4 alone, and a plate where it is signed.
abbrev pub IsPlateKind : OpVersion → OpKind → ℕ → Type 0
IsPlateKind version kind k =
    (k < 256) × (is_v4 version && plate_kind_op kind ≡ false → k ≡ unstated)

abbrev pub IsPlate : OpVersion → OpKind → Option Bytes → Type 0
IsPlate version kind none = Unit
IsPlate version kind (some plate) =
    (plated version ≡ true) × (plate_kind_op kind ≡ true) × Is32 plate

module _ (p : Primitives) where
  -- A v1 consent is one Ed25519 egg.
  abbrev pub IsConsent : OpVersion → List Egg → Type 0
  IsConsent v1 eggs = (sig : Bytes) × (eggs ≡ record { scheme = p.ed25519_tag; sig = sig } ∷ [])
  IsConsent _ eggs = Unit

  abbrev pub IsLeaveConsent : OpVersion → ℤ → List Egg → Type 0
  IsLeaveConsent version t [] = t ≡ pos 0
  IsLeaveConsent version t (egg ∷ eggs) = IsConsent version (egg ∷ eggs)

  abbrev pub HasKindFields : OpKind → FleetOp → Type 0
  HasKindFields genesis op = Is32 op.identity_pubkey × NoConsent op × NoCheckpoint op
  HasKindFields add op = IsConsent op.version op.consent × NoIdentity op × NoCheckpoint op
  HasKindFields remove op =
      IsLeaveConsent op.version op.consent_t op.consent × NoIdentity op × NoCheckpoint op
  HasKindFields checkpoint op =
      (op.ckpt_k < 2 ^ 64)
      × Is32 op.ckpt_commit
      × (op.ckpt_fanout_epoch < 2 ^ 64)
      × NoIdentity op
      × NoConsent op
  HasKindFields _ op = NoIdentity op × NoConsent op × NoCheckpoint op

  -- A bundle stands on an Add or a Declare, and is one that `new` made.
  abbrev pub IsBundle : OpKind → Option KeyBundle → Type 0
  IsBundle kind none = Unit
  IsBundle kind (some b) =
      (bundle_kind_op kind ≡ true)
      × ((ks : List Key) × (new p ks ≡ ok b))
      × (length b.keys < 256)
      × All Fits b.keys

  pub record IsWireOp (op : FleetOp) : Type 0 where
    pub handle_proof32 : Is32 op.handle_proof
    pub prev_hash32 : Is32 op.prev_hash
    pub device32 : Is32 op.device_pubkey
    pub signer32 : Is32 op.signer_pubkey
    pub kind_fields : HasKindFields op.kind op
    pub bundle_made : IsBundle op.kind op.bundle
    pub plate_kind_fits : IsPlateKind op.version op.kind op.plate_kind
    pub plate_signed : IsPlate op.version op.kind op.plate
    pub schemes_fit : All (λ (egg : Egg). egg.scheme < 256) op.sigs
