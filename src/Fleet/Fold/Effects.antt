-- ===== src/Fleet/Fold/Effects.antt =====
-- What an accepted lock, unlock, declare or checkpoint requires of the state of the walk of
-- src/fleet.rs and does to it, and the effect of an accepted op of any kind.
use fgtw.Base.{
  ℕ, ◌+◌, ◌≡◌, refl, true, false, not, Option, none, some, [], ◌∷◌, ◌++◌, ◌⊎◌, inl, inr, arith,
  length, ◌==◌, Option-cases,
}
use fgtw.Base.Bytes.{eqb, eqb_iff}
use fgtw.Base.Result.{ok, >>=-eq-ok, reject-eq-ok}
use fgtw.Primitives.{Primitives}
use fgtw.Pq.Scheme.{covers, egg_mask}
use fgtw.Pq.Bundle.{KeyBundle, mask}
use fgtw.Fleet.Op.{FleetOp, OpKind, genesis, add, remove, checkpoint, declare, lock, unlock}
use fgtw.Fleet.Members.{contains, retain_ne, push_slot, put_slot, find_slot}
use fgtw.Fleet.Fold.Walk.{FoldState, Walk}
use fgtw.Fleet.Fold.Apply.{
  apply_genesis, apply_bundle, declare_with, apply_declare, apply_add, apply_remove, apply_lock,
  apply_unlock, apply_checkpoint, apply_kind,
}
use fgtw.Fleet.Fold.Inversion.{
  GenesisFacts, AddFacts, RemoveFacts, apply_genesis-eq-ok, apply_add-eq-ok, apply_remove-eq-ok,
}

-- A declared bundle is pushed where the device had none, and replaces one that it covers.
abbrev pub Declared : FleetOp → KeyBundle → FoldState → FoldState → Type 0
Declared op b s t =
    ((find_slot op.device_pubkey s.bundles ≡ none)
      × (t ≡ record s { bundles = push_slot op.device_pubkey b s.bundles }))
    ⊎ ((old : KeyBundle) × (find_slot op.device_pubkey s.bundles ≡ some old)
        × (covers (mask b) (mask old) ≡ true)
        × (t ≡ record s { bundles = put_slot op.device_pubkey b s.bundles }))

pub record DeclareFacts (p : Primitives) (op : FleetOp) (s t : FoldState) : Type 0 where
  pub self_signed : op.signer_pubkey ≡ op.device_pubkey
  pub member : contains s.members op.device_pubkey ≡ true
  pub carried : KeyBundle
  pub carries : op.bundle ≡ some carried
  pub proven : covers (egg_mask op.sigs) (mask carried) ≡ true
  pub result : Declared op carried s t

pub record LockFacts (op : FleetOp) (s t : FoldState) : Type 0 where
  pub signer : contains s.members op.signer_pubkey ≡ true
  pub subject : contains s.members op.device_pubkey ≡ true
  pub other : eqb op.device_pubkey op.signer_pubkey ≡ false
  pub fresh : contains s.locked op.device_pubkey ≡ false
  pub result : t ≡ record s { locked = s.locked ++ op.device_pubkey ∷ [] }

pub record UnlockFacts (op : FleetOp) (s t : FoldState) : Type 0 where
  pub signer : contains s.members op.signer_pubkey ≡ true
  pub shrinks : (length (retain_ne op.device_pubkey s.locked) == length s.locked) ≡ false
  pub result : t ≡ record s { locked = retain_ne op.device_pubkey s.locked }

pub record CheckpointFacts (op : FleetOp) (last_k : ℕ) (s : FoldState) : Type 0 where
  pub signer : contains s.members op.signer_pubkey ≡ true
  pub own : op.device_pubkey ≡ op.signer_pubkey
  pub next : op.ckpt_k ≡ last_k + 1

apply_lock-eq-ok :
    (p : Primitives) (i : ℕ) (op : FleetOp) (s t : FoldState)
    → apply_lock p i op s ≡ ok t
    → LockFacts op s t
unfolding apply_lock
apply_lock-eq-ok p i op s t h = ground arith

apply_unlock-eq-ok :
    (p : Primitives) (i : ℕ) (op : FleetOp) (s t : FoldState)
    → apply_unlock p i op s ≡ ok t
    → UnlockFacts op s t
unfolding apply_unlock
apply_unlock-eq-ok p i op s t h = ground arith

apply_checkpoint-eq-ok :
    (p : Primitives) (k i : ℕ) (op : FleetOp) (s : FoldState)
    → apply_checkpoint p k i op s ≡ ok tt
    → CheckpointFacts op k s
unfolding apply_checkpoint
apply_checkpoint-eq-ok p k i op s h = ground (arith, eqb_iff op.device_pubkey op.signer_pubkey)

apply_bundle-eq-ok :
    (p : Primitives) (i : ℕ) (op : FleetOp) (b : KeyBundle) (s t : FoldState)
    → apply_bundle p i op.device_pubkey b s ≡ ok t
    → Declared op b s t
unfolding apply_bundle
apply_bundle-eq-ok p i op b s t h = elim (Option-cases (find_slot op.device_pubkey s.bundles)) [
  | inl missing ↦ inl (missing, ground arith)
  | inr (old, found) ↦ inr (old, found, ground arith, ground arith)
]

declare_with-eq-ok :
    (p : Primitives) (i : ℕ) (op : FleetOp) (o : Option KeyBundle) (s t : FoldState)
    → declare_with p i op o s ≡ ok t
    → (b : KeyBundle) × (o ≡ some b)
      × (covers (egg_mask op.sigs) (mask b) ≡ true)
      × Declared op b s t
unfolding declare_with
declare_with-eq-ok p i op none s t h = cc
declare_with-eq-ok p i op (some b) s t h =
    let (proven, rest) = reject-eq-ok (not (covers (egg_mask op.sigs) (mask b))) _ _ h in
    (b, refl, ground arith, apply_bundle-eq-ok p i op b s t rest)

apply_declare-eq-ok :
    (p : Primitives) (i : ℕ) (op : FleetOp) (s t : FoldState)
    → apply_declare p i op s ≡ ok t
    → DeclareFacts p op s t
unfolding apply_declare
apply_declare-eq-ok p i op s t h =
    let (own, h₁) = reject-eq-ok (not (eqb op.signer_pubkey op.device_pubkey)) _ _ h in
    let (member, h₂) = reject-eq-ok (not (contains s.members op.device_pubkey)) _ _ h₁ in
    let (b, carries, proven, result) = declare_with-eq-ok p i op op.bundle s t h₂ in
    record {
      self_signed = ground (arith, eqb_iff op.signer_pubkey op.device_pubkey);
      member = ground arith;
      carried = b;
      carries = carries;
      proven = proven;
      result = result;
    }

-- The facts and the effect of an accepted op, by kind; all but a checkpoint leave the rest of the
-- walk as it is.
abbrev pub KindFacts : Primitives → OpKind → ℕ → FleetOp → Walk → Walk → Type 0
KindFacts p genesis i op w v =
    GenesisFacts p i op w.state v.state × (v ≡ record w { state = v.state })
KindFacts p add i op w v = AddFacts p op w.state v.state × (v ≡ record w { state = v.state })
KindFacts p remove i op w v = RemoveFacts p op w.state v.state × (v ≡ record w { state = v.state })
KindFacts p declare i op w v =
    DeclareFacts p op w.state v.state × (v ≡ record w { state = v.state })
KindFacts p lock i op w v = LockFacts op w.state v.state × (v ≡ record w { state = v.state })
KindFacts p unlock i op w v = UnlockFacts op w.state v.state × (v ≡ record w { state = v.state })
KindFacts p checkpoint i op w v =
    CheckpointFacts op w.last_ckpt_k w.state × (v ≡ record w { last_ckpt_k = op.ckpt_k })

pub apply_kind-eq-ok :
    (p : Primitives) (k : OpKind) (i : ℕ) (op : FleetOp) (w v : Walk)
    → apply_kind p k i op w ≡ ok v
    → KindFacts p k i op w v
unfolding apply_kind
apply_kind-eq-ok p genesis i op w v h =
    let (s, e, r) = >>=-eq-ok (apply_genesis p i op w.state) _ h in
    (apply_genesis-eq-ok p i op w.state v.state (ground arith), ground arith)
apply_kind-eq-ok p add i op w v h =
    let (s, e, r) = >>=-eq-ok (apply_add p i op w.state) _ h in
    (apply_add-eq-ok p i op w.state v.state (ground arith), ground arith)
apply_kind-eq-ok p remove i op w v h =
    let (s, e, r) = >>=-eq-ok (apply_remove p i op w.state) _ h in
    (apply_remove-eq-ok p i op w.state v.state (ground arith), ground arith)
apply_kind-eq-ok p declare i op w v h =
    let (s, e, r) = >>=-eq-ok (apply_declare p i op w.state) _ h in
    (apply_declare-eq-ok p i op w.state v.state (ground arith), ground arith)
apply_kind-eq-ok p lock i op w v h =
    let (s, e, r) = >>=-eq-ok (apply_lock p i op w.state) _ h in
    (apply_lock-eq-ok p i op w.state v.state (ground arith), ground arith)
apply_kind-eq-ok p unlock i op w v h =
    let (s, e, r) = >>=-eq-ok (apply_unlock p i op w.state) _ h in
    (apply_unlock-eq-ok p i op w.state v.state (ground arith), ground arith)
apply_kind-eq-ok p checkpoint i op w v h =
    let (u, e, r) = >>=-eq-ok (apply_checkpoint p w.last_ckpt_k i op w.state) _ h in
    (apply_checkpoint-eq-ok p w.last_ckpt_k i op w.state e, ground arith)
