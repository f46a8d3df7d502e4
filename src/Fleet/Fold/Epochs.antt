-- ===== src/Fleet/Fold/Epochs.antt =====
-- The checkpoint numbers of a chain that folds, and its latest checkpoint (src/fleet.rs).
use mathlib.Core.List.{reverse, reverse-cons}
use fgtw.Base.{
  ℕ, ◌+◌, ◌≡◌, ap, ◌∙◌, subst, inl, inr, true, Option, none, some, List, [], ◌∷◌, ◌++◌, arith,
  length, if◌then◌else◌, Bool-cases,
}
use fgtw.Base.Bytes.{Bytes}
use fgtw.Base.Result.{ok}
use fgtw.Primitives.{Primitives}
use fgtw.Fleet.Op.{FleetOp, OpKind, genesis, add, remove, checkpoint, declare, lock, unlock}
use fgtw.Fleet.Query.{find_checkpoint, latest_checkpoint}
use fgtw.Fleet.Fold.Walk.{FoldState, Walk, record_plate, is_checkpoint}
use fgtw.Fleet.Fold.Apply.{apply_kind}
use fgtw.Fleet.Fold.Step.{finish, fold_ops, fold_inner, start}
use fgtw.Fleet.Fold.Inversion.{fold_step-eq-ok}
use fgtw.Fleet.Fold.Effects.{apply_kind-eq-ok}
use fgtw.Fleet.Fold.Trace.{fold_ops-cons, fold_inner-eq-ok}

-- The numbers of the checkpoints of a chain, oldest first.
abbrev pub epochs : List FleetOp → List ℕ
epochs [] = []
epochs (op ∷ ops) = if is_checkpoint op.kind then op.ckpt_k ∷ epochs ops else epochs ops

-- Each number is one more than the one before it, the first one more than `k`.
abbrev pub IsConsecutive : ℕ → List ℕ → Type 0
IsConsecutive k [] = Unit {0}
IsConsecutive k (n ∷ ns) = (n ≡ k + 1) × IsConsecutive n ns

-- The number of a found checkpoint, or `k`.
abbrev pub number_or : ℕ → Option (ℕ × Bytes × ℕ) → ℕ
number_or k none = k
number_or k (some t) = t.0

apply_kind-last_k :
    (p : Primitives) (k : OpKind) (i : ℕ) (op : FleetOp) (w v : Walk)
    → apply_kind p k i op w ≡ ok v
    → (v.last_ckpt_k ≡ (if is_checkpoint k then op.ckpt_k else w.last_ckpt_k))
      × (is_checkpoint k ≡ true → op.ckpt_k ≡ w.last_ckpt_k + 1)
apply_kind-last_k p checkpoint i op w v h =
    let facts = apply_kind-eq-ok p checkpoint i op w v h in
    (ap (λ (u : Walk). u.last_ckpt_k) facts.1, λ e. facts.0.next)
apply_kind-last_k p genesis i op w v h =
    (ap (λ (u : Walk). u.last_ckpt_k) (apply_kind-eq-ok p genesis i op w v h).1, λ e. cc)
apply_kind-last_k p add i op w v h =
    (ap (λ (u : Walk). u.last_ckpt_k) (apply_kind-eq-ok p add i op w v h).1, λ e. cc)
apply_kind-last_k p remove i op w v h =
    (ap (λ (u : Walk). u.last_ckpt_k) (apply_kind-eq-ok p remove i op w v h).1, λ e. cc)
apply_kind-last_k p declare i op w v h =
    (ap (λ (u : Walk). u.last_ckpt_k) (apply_kind-eq-ok p declare i op w v h).1, λ e. cc)
apply_kind-last_k p lock i op w v h =
    (ap (λ (u : Walk). u.last_ckpt_k) (apply_kind-eq-ok p lock i op w v h).1, λ e. cc)
apply_kind-last_k p unlock i op w v h =
    (ap (λ (u : Walk). u.last_ckpt_k) (apply_kind-eq-ok p unlock i op w v h).1, λ e. cc)

fold_ops-IsConsecutive :
    (p : Primitives) (identity : Bytes) (i : ℕ) (ops : List FleetOp) (w u : Walk)
    → fold_ops p identity i ops w ≡ ok u
    → IsConsecutive w.last_ckpt_k (epochs ops)
unfolding finish record_plate
fold_ops-IsConsecutive p identity i [] w u h = tt
fold_ops-IsConsecutive p identity i (op ∷ ops) w u h =
    let (w', step, later) = fold_ops-cons p identity i op ops w u h in
    let (shape, authorised, (v, applied, result)) = fold_step-eq-ok p identity i op w w' step in
    let (last, next) = apply_kind-last_k p op.kind i op (record_plate op w) v applied in
    let kept : w'.last_ckpt_k ≡ v.last_ckpt_k = ap (λ (t : Walk). t.last_ckpt_k) result in
    let rest = fold_ops-IsConsecutive p identity (i + 1) ops w' u later in
    elim (Bool-cases (is_checkpoint op.kind)) [
      | inl yes_it_is ↦ rw yes_it_is (
        next yes_it_is,
        subst (λ k. IsConsecutive k (epochs ops)) (kept ∙ (rw yes_it_is at last)) rest,
      )
      | inr other ↦
          rw other (subst (λ k. IsConsecutive k (epochs ops)) (kept ∙ (rw other at last)) rest)
    ]

find_checkpoint-append :
    (xs : List FleetOp) (op : FleetOp) (k : ℕ)
    → number_or k (find_checkpoint (xs ++ op ∷ []))
      ≡ number_or (if is_checkpoint op.kind then op.ckpt_k else k) (find_checkpoint xs)
unfolding find_checkpoint
find_checkpoint-append [] op k = ground arith
find_checkpoint-append (x ∷ xs) op k = ground (arith, find_checkpoint-append xs op k)

latest_number :
    (k : ℕ) (ops : List FleetOp)
    → IsConsecutive k (epochs ops)
    → number_or k (find_checkpoint (reverse ops)) ≡ k + length (epochs ops)
unfolding find_checkpoint
latest_number k [] h = omega arith
latest_number k (op ∷ ops) h =
    rw (reverse-cons op ops, find_checkpoint-append (reverse ops) op k)
      (elim (Bool-cases (is_checkpoint op.kind)) [
        | inl e ↦ rw e (let c = rw e at h in omega (arith, latest_number op.ckpt_k ops c.1, c.0))
        | inr e ↦ rw e (latest_number k ops (rw e at h))
      ])

-- In a chain that folds the checkpoints are numbered 1, 2, 3 and so on, with none left out and none
-- twice, and the latest checkpoint carries the number of checkpoints.
pub fold_inner-IsConsecutive :
    (p : Primitives) (ops : List FleetOp) (s : FoldState)
    → fold_inner p ops ≡ ok s
    → IsConsecutive 0 (epochs ops) × (number_or 0 (latest_checkpoint ops) ≡ length (epochs ops))
unfolding start latest_checkpoint
fold_inner-IsConsecutive p ops s h =
    let (op, rest, w, split, walked, result) = fold_inner-eq-ok p ops s h in
    let numbered : IsConsecutive 0 (epochs ops) =
      rw split (fold_ops-IsConsecutive p op.handle_proof 0 (op ∷ rest) (start p) w walked) in
    (numbered, omega (arith, latest_number 0 ops numbered))
