-- ===== src/Fleet/Signing.antt =====
-- src/fleet.rs: the bytes that the signatures of an op cover, its chain hash, and the signature checks.
use fgtw.Base.{
  ℕ, ◌*◌, ◌^◌, Bool, true, false, not, ◌&&◌, Option, none, some, List, [], ◌∷◌, ◌++◌, ◌==◌, length,
  if◌then◌else◌,
}
use fgtw.Base.Bytes.{Bytes, zero32, eqb, le_bytes}
use fgtw.Base.Int.{ℤ, to_u64}
use fgtw.Base.Text.{codes}
use fgtw.Primitives.{Primitives, Egg}
use fgtw.Pq.Scheme.{Mask}
use fgtw.Pq.Bundle.{KeyBundle, to_bytes, is_empty, is_some, pubkey, ed25519_only, ed25519, mask}
use fgtw.Pq.Eggs.{verify_egg, verify_eggs}
use fgtw.Fleet.Op.{
  OpKind, add, checkpoint, declare, kind_byte, domain, plated, framed, is_v4, unstated,
  plate_kind_op, FleetOp,
}

-- `frame_into`: `u32 LE length ‖ bytes`
unfoldable pub frame : Bytes → Bytes
frame bytes = le_bytes 4 (length bytes) ++ bytes

-- An i64 as `to_le_bytes`.
abbrev pub time_bytes : ℤ → Bytes
time_bytes t = le_bytes 8 (to_u64 t)

abbrev pub or_empty : Option Bytes → Bytes
or_empty none = []
or_empty (some b) = b

-- `first().map(|e| e.sig.as_slice()).unwrap_or(&[])`
abbrev pub first_sig : List Egg → Bytes
first_sig [] = []
first_sig (e ∷ es) = e.sig

-- `bundle.map(|k| k.to_bytes()).unwrap_or_default()`
abbrev pub bundle_bytes : Option KeyBundle → Bytes
bundle_bytes none = []
bundle_bytes (some b) = to_bytes b

unfoldable pub bindreq_signing_bytes : Bytes → Bytes → ℤ → Bytes
bindreq_signing_bytes handle_proof device t =
    codes "PHOTON_BINDREQ_v1" ++ (handle_proof ++ (device ++ time_bytes t))

unfoldable pub bindreq_signing_bytes_plated : Bytes → Bytes → ℤ → Option Bytes → ℕ → Bytes
unfolding bindreq_signing_bytes
bindreq_signing_bytes_plated handle_proof device t plate kind =
    if not (is_some plate) && (kind == unstated)
    then bindreq_signing_bytes handle_proof device t
    else codes "PHOTON_BINDREQ_v2"
      ++ (handle_proof ++ (device ++ (time_bytes t ++ (kind ∷ or_empty plate))))

unfoldable pub departreq_signing_bytes : Bytes → Bytes → ℤ → Bytes
departreq_signing_bytes handle_proof device t =
    codes "PHOTON_DEPARTREQ_v1" ++ (handle_proof ++ (device ++ time_bytes t))

-- The parts of `signing_bytes` that depend on the version and the kind.
unfoldable pub checkpoint_part : OpKind → FleetOp → Bytes
checkpoint_part checkpoint op =
    le_bytes 8 op.ckpt_k ++ (op.ckpt_commit ++ le_bytes 8 op.ckpt_fanout_epoch)
checkpoint_part _ op = []

abbrev pub bundle_kind_op : OpKind → Bool
bundle_kind_op add = true
bundle_kind_op declare = true
bundle_kind_op _ = false

unfoldable pub bundle_part : FleetOp → Bytes
bundle_part op =
    if framed op.version && bundle_kind_op op.kind then frame (bundle_bytes op.bundle) else []

unfoldable pub plate_part : FleetOp → Bytes
plate_part op =
    if plated op.version && plate_kind_op op.kind
    then frame (or_empty op.plate) ++ (if is_v4 op.version then op.plate_kind ∷ [] else [])
    else []

-- `CONSENT_WINDOW_OSC`, `OP_TIME_MAX_OSC`, `BINDREQ_FRESH_OSC`
unfoldable pub consent_window : Primitives → ℕ
consent_window p = 3600 * p.oscillations_per_second

abbrev pub op_time_max : ℕ
op_time_max = 2 ^ 62

unfoldable pub bindreq_fresh : Primitives → ℕ
bindreq_fresh p = 300 * p.oscillations_per_second

module _ (p : Primitives) where
  unfoldable pub consent_part : FleetOp → Bytes
  consent_part op =
      if framed op.version then frame (p.eggs_to_bytes op.consent) else first_sig op.consent

  unfoldable pub signing_bytes : FleetOp → Bytes
  signing_bytes op =
      domain op.version
      ++ (op.handle_proof
          ++ (op.prev_hash
              ++ (kind_byte op.kind ∷ op.device_pubkey
                  ++ (time_bytes op.eagle_time
                      ++ (op.signer_pubkey
                          ++ (op.identity_pubkey
                              ++ (time_bytes op.consent_t
                                  ++ (consent_part op
                                      ++ (checkpoint_part op.kind op
                                          ++ (bundle_part op ++ plate_part op))))))))))

-- The signatures as `chain_hash` hashes them: framed from v2 on, bare before.
unfoldable pub framed_sigs : List Egg → Bytes
framed_sigs [] = []
framed_sigs (e ∷ es) = e.scheme ∷ frame e.sig ++ framed_sigs es

unfoldable pub bare_sigs : List Egg → Bytes
bare_sigs [] = []
bare_sigs (e ∷ es) = e.scheme ∷ e.sig ++ bare_sigs es

unfoldable pub sigs_part : FleetOp → Bytes
unfolding framed_sigs bare_sigs
sigs_part op =
    if framed op.version
    then le_bytes 4 (length op.sigs) ++ (framed_sigs op.sigs ++ frame op.identity_sig)
    else bare_sigs op.sigs ++ op.identity_sig

module _ (p : Primitives) where
  unfoldable pub chain_hash : FleetOp → Bytes
  chain_hash op = p.blake3 (signing_bytes p op ++ sigs_part op)

  unfoldable pub verify_ed25519 : Bytes → Bytes → Bytes → Bool
  verify_ed25519 key msg sig = (length sig == 64) && p.dalek_verify key msg sig

  unfoldable pub verify_identity_binding : FleetOp → Bool
  unfolding verify_ed25519
  verify_identity_binding op =
      not (eqb op.identity_pubkey zero32)
      && ((length op.identity_sig == 64)
          && verify_ed25519 op.identity_pubkey (signing_bytes p op) op.identity_sig)

  unfoldable pub verify_consent : FleetOp → KeyBundle → Mask → Bool
  verify_consent op subject required =
      verify_eggs p op.consent subject
        (bindreq_signing_bytes_plated op.handle_proof op.device_pubkey op.consent_t op.plate
          op.plate_kind)
        required

  unfoldable pub verify_depart_consent : FleetOp → KeyBundle → Mask → Bool
  verify_depart_consent op subject required =
      verify_eggs p op.consent subject
        (departreq_signing_bytes op.handle_proof op.device_pubkey op.consent_t) required

  -- One round of the loop of `verify_sigs`: Ed25519 is checked under the signer's own key.
  pub sig_ok : FleetOp → KeyBundle → Egg → Bool
  unfolding verify_ed25519
  sig_ok op b e =
      if e.scheme == p.ed25519_tag
      then verify_ed25519 op.signer_pubkey (signing_bytes p op) e.sig
      else elim (pubkey b e.scheme) [
        | none ↦ false
        | some pk ↦ verify_egg p e.scheme pk (signing_bytes p op) e.sig
      ]

  unfoldable pub sigs_ok : FleetOp → KeyBundle → List Egg → Bool
  unfolding sig_ok
  sigs_ok op b [] = true
  sigs_ok op b (e ∷ es) = sig_ok op b e && sigs_ok op b es

  unfoldable pub verify_sigs : FleetOp → KeyBundle → Bool
  unfolding sigs_ok
  verify_sigs op b = not (is_empty op.sigs) && sigs_ok op b op.sigs

pub record BindRequest : Type 0 where
  pub device_pubkey : Bytes
  pub t : ℤ
  pub device_sig : List Egg
  pub bundle : Option KeyBundle
  pub identity_sig : Bytes
  pub plate : Option Bytes
  pub plate_kind : ℕ
  pub nfc_hash : Bytes

module _ (p : Primitives) where
  -- `bundle.clone().unwrap_or_else(|| KeyBundle::ed25519_only(..))`
  abbrev pub bundle_or_ed : Bytes → Option KeyBundle → KeyBundle
  bundle_or_ed device none = ed25519_only p device
  bundle_or_ed device (some b) = b

  -- `BindRequest::verify`
  unfoldable pub bindreq_verify : BindRequest → Bytes → Bytes → Bool
  bindreq_verify r handle_proof identity_pubkey =
      let msg =
        bindreq_signing_bytes_plated handle_proof r.device_pubkey r.t r.plate r.plate_kind in
      let subject = bundle_or_ed r.device_pubkey r.bundle in
      eqb (ed25519 p subject) r.device_pubkey
      && (verify_eggs p r.device_sig subject msg (mask subject)
          && verify_ed25519 p identity_pubkey msg r.identity_sig)
