-- ===== src/Fleet/Fold/Invariant.antt =====
-- The well-formedness of what the walk of src/fleet.rs keeps, and that every accepted op keeps it.
use fgtw.Base.{ℕ, ◌≡◌, refl, true, List, ◌∷◌, arith, inl, inr}
use fgtw.Base.Bytes.{Bytes, eqb_iff}
use fgtw.Base.Bits.{Includes-refl, Includes-trans, Includes-or_left}
use fgtw.Base.Result.{ok}
use fgtw.Primitives.{Primitives}
use fgtw.Pq.Scheme.{covers, mask_base, mask_all, covers→Includes, Includes→covers}
use fgtw.Fleet.Op.{FleetOp, OpKind, genesis, add, remove, checkpoint, declare, lock, unlock}
use fgtw.Fleet.Members.{
  contains, contains-append, contains-retain_ne, Distinct, Distinct-append, Distinct-retain_ne,
}
use fgtw.Fleet.Fold.Walk.{FoldState, Walk, record_plate}
use fgtw.Fleet.Fold.Apply.{apply_kind}
use fgtw.Fleet.Fold.Step.{finish, fold_step, fold_inner, start, live_mask}
use fgtw.Fleet.Fold.Inversion.{fold_step-eq-ok}
use fgtw.Fleet.Fold.Effects.{apply_kind-eq-ok}
use fgtw.Fleet.Fold.Trace.{fold_ops-keeps, fold_inner-eq-ok}

-- Members are distinct, locked devices are distinct members, and the floor has Ed25519.
pub record IsWellFormed (p : Primitives) (s : FoldState) : Type 0 where
  pub members_distinct : Distinct s.members
  pub locked_distinct : Distinct s.locked
  pub locked_members : (d : Bytes) → contains s.locked d ≡ true → contains s.members d ≡ true
  pub floor_base : covers s.floor (mask_base p) ≡ true

module _ (p : Primitives) (i : ℕ) (op : FleetOp) (w v : Walk) (h : IsWellFormed p w.state) where
  genesis-IsWellFormed : apply_kind p genesis i op w ≡ ok v → IsWellFormed p v.state
  unfolding contains
  genesis-IsWellFormed e =
      let facts = (apply_kind-eq-ok p genesis i op w v e).0 in
      rw facts.result (record {
        members_distinct =
            Distinct-append w.members op.device_pubkey h.members_distinct
              (rw facts.no_members refl);
        locked_distinct = h.locked_distinct;
        locked_members = λ d l.
            ground (arith, contains-append w.members op.device_pubkey d, h.locked_members d l);
        floor_base = h.floor_base;
      })

  add-IsWellFormed : apply_kind p add i op w ≡ ok v → IsWellFormed p v.state
  add-IsWellFormed e =
      let facts = (apply_kind-eq-ok p add i op w v e).0 in
      rw facts.result (record {
        members_distinct =
            Distinct-append w.members op.device_pubkey h.members_distinct facts.fresh;
        locked_distinct = h.locked_distinct;
        locked_members = λ d l.
            ground (arith, contains-append w.members op.device_pubkey d, h.locked_members d l);
        floor_base = h.floor_base;
      })

  remove-IsWellFormed : apply_kind p remove i op w ≡ ok v → IsWellFormed p v.state
  remove-IsWellFormed e =
      let facts = (apply_kind-eq-ok p remove i op w v e).0 in
      rw facts.result (record {
        members_distinct = Distinct-retain_ne op.device_pubkey w.members h.members_distinct;
        locked_distinct = Distinct-retain_ne op.device_pubkey w.locked h.locked_distinct;
        locked_members = λ d l. ground (
          arith,
          contains-retain_ne op.device_pubkey d w.members,
          contains-retain_ne op.device_pubkey d w.locked,
          h.locked_members d,
        );
        floor_base = h.floor_base;
      })

  lock-IsWellFormed : apply_kind p lock i op w ≡ ok v → IsWellFormed p v.state
  lock-IsWellFormed e =
      let facts = (apply_kind-eq-ok p lock i op w v e).0 in
      rw facts.result (record {
        members_distinct = h.members_distinct;
        locked_distinct = Distinct-append w.locked op.device_pubkey h.locked_distinct facts.fresh;
        locked_members = λ d l. ground (
          arith,
          contains-append w.locked op.device_pubkey d,
          eqb_iff op.device_pubkey d,
          facts.subject,
          h.locked_members d,
        );
        floor_base = h.floor_base;
      })

  unlock-IsWellFormed : apply_kind p unlock i op w ≡ ok v → IsWellFormed p v.state
  unlock-IsWellFormed e =
      let facts = (apply_kind-eq-ok p unlock i op w v e).0 in
      rw facts.result (record {
        members_distinct = h.members_distinct;
        locked_distinct = Distinct-retain_ne op.device_pubkey w.locked h.locked_distinct;
        locked_members = λ d l.
            ground (arith, contains-retain_ne op.device_pubkey d w.locked, h.locked_members d);
        floor_base = h.floor_base;
      })

  declare-IsWellFormed : apply_kind p declare i op w ≡ ok v → IsWellFormed p v.state
  declare-IsWellFormed e = elim (apply_kind-eq-ok p declare i op w v e).0.result [
    | inl (missing, result) ↦ rw result (record {
      members_distinct = h.members_distinct;
      locked_distinct = h.locked_distinct;
      locked_members = h.locked_members;
      floor_base = h.floor_base;
    })
    | inr (old, found, covered, result) ↦ rw result (record {
      members_distinct = h.members_distinct;
      locked_distinct = h.locked_distinct;
      locked_members = h.locked_members;
      floor_base = h.floor_base;
    })
  ]

  checkpoint-IsWellFormed : apply_kind p checkpoint i op w ≡ ok v → IsWellFormed p v.state
  checkpoint-IsWellFormed e = rw (apply_kind-eq-ok p checkpoint i op w v e).1 h

apply_kind-IsWellFormed :
    (p : Primitives) (k : OpKind) (i : ℕ) (op : FleetOp) (w v : Walk)
    → IsWellFormed p w.state
    → apply_kind p k i op w ≡ ok v
    → IsWellFormed p v.state
apply_kind-IsWellFormed p genesis i op w v h e = genesis-IsWellFormed p i op w v h e
apply_kind-IsWellFormed p add i op w v h e = add-IsWellFormed p i op w v h e
apply_kind-IsWellFormed p remove i op w v h e = remove-IsWellFormed p i op w v h e
apply_kind-IsWellFormed p lock i op w v h e = lock-IsWellFormed p i op w v h e
apply_kind-IsWellFormed p unlock i op w v h e = unlock-IsWellFormed p i op w v h e
apply_kind-IsWellFormed p declare i op w v h e = declare-IsWellFormed p i op w v h e
apply_kind-IsWellFormed p checkpoint i op w v h e = checkpoint-IsWellFormed p i op w v h e

record_plate-IsWellFormed :
    (p : Primitives) (op : FleetOp) (w : Walk)
    → IsWellFormed p w.state
    → IsWellFormed p (record_plate op w).state
unfolding record_plate
record_plate-IsWellFormed p op w h = record {
  members_distinct = h.members_distinct;
  locked_distinct = h.locked_distinct;
  locked_members = h.locked_members;
  floor_base = h.floor_base;
}

finish-IsWellFormed :
    (p : Primitives) (op : FleetOp) (w : Walk)
    → IsWellFormed p w.state
    → IsWellFormed p (finish p op w).state
unfolding finish
finish-IsWellFormed p op w h = record {
  members_distinct = h.members_distinct;
  locked_distinct = h.locked_distinct;
  locked_members = h.locked_members;
  floor_base = Includes→covers _ _ (
      Includes-trans _ w.floor _
        (Includes-or_left w.floor (live_mask p w.bundles w.locked (mask_all p) w.members))
        (covers→Includes _ _ h.floor_base));
}

-- Every accepted op keeps the state well formed.
fold_step-IsWellFormed :
    (p : Primitives) (identity : Bytes) (i : ℕ) (op : FleetOp) (w w' : Walk)
    → fold_step p identity i op w ≡ ok w'
    → IsWellFormed p w.state
    → IsWellFormed p w'.state
fold_step-IsWellFormed p identity i op w w' e h =
    let (shape, authorised, (v, applied, result)) = fold_step-eq-ok p identity i op w w' e in
    rw result (
      finish-IsWellFormed p op v (
        apply_kind-IsWellFormed p op.kind i op (record_plate op w) v
          (record_plate-IsWellFormed p op w h) applied))

start-IsWellFormed : (p : Primitives) → IsWellFormed p (start p).state
unfolding start contains
start-IsWellFormed p = record {
  members_distinct = tt;
  locked_distinct = tt;
  locked_members = λ d l. cc;
  floor_base = Includes→covers _ _ (Includes-refl (mask_base p));
}

-- A chain that folds yields distinct members, locked devices that are distinct and members, and a
-- floor that has Ed25519.
pub fold_inner-IsWellFormed :
    (p : Primitives) (ops : List FleetOp) (s : FoldState)
    → fold_inner p ops ≡ ok s
    → IsWellFormed p s
fold_inner-IsWellFormed p ops s h =
    let (op, rest, w, split, walked, result) = fold_inner-eq-ok p ops s h in
    rw (← result) (
      fold_ops-keeps p op.handle_proof (λ u. IsWellFormed p u.state)
        (λ i o a b. fold_step-IsWellFormed p op.handle_proof i o a b) 0 (op ∷ rest) (start p) w
        walked (start-IsWellFormed p))
