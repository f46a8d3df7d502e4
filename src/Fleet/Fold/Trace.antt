-- ===== src/Fleet/Fold/Trace.antt =====
-- The walk of src/fleet.rs over a chain that is split in two, and induction along a walk.
use fgtw.Base.{
  ℕ, suc, ◌+◌, ◌≡◌, refl, ap, subst, ◌∙◌, ◌⊎◌, inl, inr, Bool, true, false, List, [], ◌∷◌, ◌++◌,
  arith, length, Bool-cases,
}
use fgtw.Base.Bytes.{Bytes}
use fgtw.Base.Result.{ok, >>=-eq-ok}
use fgtw.Primitives.{Primitives}
use fgtw.Fleet.Op.{FleetOp}
use fgtw.Fleet.Fold.Walk.{FoldState, Walk}
use fgtw.Fleet.Fold.Step.{fold_step, fold_ops, fold_inner, start}

-- Some element of the list has the property.
abbrev pub Any : {A : Type 0} → (A → Type 0) → List A → Type 0
Any P [] = ⊥
Any P (x ∷ xs) = P x ⊎ Any P xs

pub Any-append_right : {A : Type 0} (P : A → Type 0) (xs ys : List A) → Any P ys → Any P (xs ++ ys)
Any-append_right P [] ys h = h
Any-append_right P (x ∷ xs) ys h = inr (Any-append_right P xs ys h)

module _ (p : Primitives) (identity : Bytes) where
  pub fold_ops-cons :
      (i : ℕ) (op : FleetOp) (ops : List FleetOp) (w u : Walk)
      → fold_ops p identity i (op ∷ ops) w ≡ ok u
      → (v : Walk) × (fold_step p identity i op w ≡ ok v)
        × (fold_ops p identity (i + 1) ops v ≡ ok u)
  unfolding fold_ops
  fold_ops-cons i op ops w u h = >>=-eq-ok (fold_step p identity i op w) _ h

  pub cons-fold_ops :
      (i : ℕ) (op : FleetOp) (ops : List FleetOp) (w v : Walk)
      → fold_step p identity i op w ≡ ok v
      → fold_ops p identity i (op ∷ ops) w ≡ fold_ops p identity (i + 1) ops v
  unfolding fold_ops
  cons-fold_ops i op ops w v h = rw h

  -- A walk over a chain passes through the walk over each of its beginnings.
  pub fold_ops-append :
      (i : ℕ) (xs ys : List FleetOp) (w u : Walk)
      → fold_ops p identity i (xs ++ ys) w ≡ ok u
      → (v : Walk) × (fold_ops p identity i xs w ≡ ok v)
        × (fold_ops p identity (i + length xs) ys v ≡ ok u)
  unfolding fold_ops
  fold_ops-append i [] ys w u h = let e : i + 0 ≡ i = omega arith in (w, refl, rw e h)
  fold_ops-append i (x ∷ xs) ys w u h =
      let (v, s, h₁) = fold_ops-cons i x (xs ++ ys) w u h in
      let (t, a, b) = fold_ops-append (i + 1) xs ys v u h₁ in
      let e : i + suc (length xs) ≡ i + 1 + length xs = omega arith in (t, rw s a, rw e b)

  pub append-fold_ops :
      (i : ℕ) (xs ys : List FleetOp) (w v : Walk)
      → fold_ops p identity i xs w ≡ ok v
      → fold_ops p identity i (xs ++ ys) w ≡ fold_ops p identity (i + length xs) ys v
  unfolding fold_ops
  append-fold_ops i [] ys w v h = let e : i + 0 ≡ i = omega arith in rw e (cc)
  append-fold_ops i (x ∷ xs) ys w v h =
      let (u, s, h₁) = fold_ops-cons i x xs w v h in
      let e : i + suc (length xs) ≡ i + 1 + length xs = omega arith in
      rw (s, e) (append-fold_ops (i + 1) xs ys u v h₁)

  -- What every accepted op keeps, the walk keeps.
  pub fold_ops-keeps :
      (P : Walk → Type 0)
      → ((i : ℕ) (op : FleetOp) (w v : Walk) → fold_step p identity i op w ≡ ok v → P w → P v)
      → (i : ℕ) (ops : List FleetOp) (w u : Walk) → fold_ops p identity i ops w ≡ ok u
      → P w
      → P u
  unfolding fold_ops
  fold_ops-keeps P step i [] w u h q = subst P (cc) q
  fold_ops-keeps P step i (op ∷ ops) w u h q =
      let (v, s, h₁) = fold_ops-cons i op ops w u h in
      fold_ops-keeps P step (i + 1) ops v u h₁ (step i op w v s q)

  -- A property that a walk gains, it gains at some op, behind the walk over the ops before it.
  pub fold_ops-gains :
      (f : Walk → Bool) (i : ℕ) (ops : List FleetOp) (w u : Walk)
      → fold_ops p identity i ops w ≡ ok u
      → f w ≡ false
      → f u ≡ true
      → (xs : List FleetOp) × (op : FleetOp) × (ys : List FleetOp) × (v : Walk) × (v' : Walk) × (ops
          ≡ xs ++ op ∷ ys)
        × (fold_ops p identity i xs w ≡ ok v)
        × (fold_step p identity (i + length xs) op v ≡ ok v')
        × (f v ≡ false)
        × (f v' ≡ true)
  unfolding fold_ops
  fold_ops-gains f i [] w u h a b = absurd (ground (arith, ap_f))
    where
      ap_f : f w ≡ f u
      ap_f = cc
  fold_ops-gains f i (op ∷ ops) w u h a b =
      let (v, s, h₁) = fold_ops-cons i op ops w u h in
      let later = fold_ops-gains f (i + 1) ops v u h₁ in
      let here : i + 0 ≡ i = omega arith in
      elim (Bool-cases (f v)) [
        | inl gained ↦ ([], op, ops, w, v, refl, refl, rw here s, a, gained)
        | inr not_yet ↦
            let (xs, o, ys, t, t', split, walked, step, before, behind) = later not_yet b in
            let place : i + suc (length xs) ≡ i + 1 + length xs = omega arith in
            (op ∷ xs, o, ys, t, t', ap (◌∷◌ op) split, rw s walked, rw place step, before, behind)
      ]

-- A chain that folds is not empty, and its fold is the end of its walk.
pub fold_inner-eq-ok :
    (p : Primitives) (ops : List FleetOp) (s : FoldState)
    → fold_inner p ops ≡ ok s
    → (op : FleetOp) × (rest : List FleetOp) × (w : Walk) × (ops ≡ op ∷ rest)
      × (fold_ops p op.handle_proof 0 (op ∷ rest) (start p) ≡ ok w)
      × (w.state ≡ s)
unfolding fold_inner
fold_inner-eq-ok p [] s h = cc
fold_inner-eq-ok p (op ∷ rest) s h =
    let (w, e, r) = >>=-eq-ok (fold_ops p op.handle_proof 0 (op ∷ rest) (start p)) _ h in
    (op, rest, w, refl, e, ground arith)

-- A chain that folds folds at each of its beginnings, and the walk goes on from there.
pub fold_inner-append :
    (p : Primitives) (op : FleetOp) (xs ys : List FleetOp) (t : FoldState)
    → fold_inner p ((op ∷ xs) ++ ys) ≡ ok t
    → (v : Walk) × (w : Walk) × (fold_ops p op.handle_proof 0 (op ∷ xs) (start p) ≡ ok v)
      × (fold_inner p (op ∷ xs) ≡ ok v.state)
      × (fold_ops p op.handle_proof (0 + length (op ∷ xs)) ys v ≡ ok w)
      × (w.state ≡ t)
unfolding fold_inner
fold_inner-append p op xs ys t h =
    let (w, e, r) = >>=-eq-ok (fold_ops p op.handle_proof 0 ((op ∷ xs) ++ ys) (start p)) _ h in
    let (v, a, b) = fold_ops-append p op.handle_proof 0 (op ∷ xs) ys (start p) w e in
    (v, w, a, rw a, b, ground arith)

-- Somewhere in `ys`, behind the chain `xs`, stands an op of which `P` holds with the fold of all that
-- comes before it.
abbrev pub Happens :
    Primitives → List FleetOp → List FleetOp → (FleetOp → FoldState → Type 0) → Type 0
Happens p xs ys P =
    (zs : List FleetOp) × (op : FleetOp) × (us : List FleetOp) × (s : FoldState) × (ys
      ≡ zs ++ op ∷ us)
    × (fold_inner p (xs ++ zs) ≡ ok s)
    × P op s

-- A property that the fold of a chain gains behind one of its beginnings, it gains at some op.
pub fold_inner-gains :
    (p : Primitives) (f : FoldState → Bool) (P : FleetOp → FoldState → Type 0) (first : FleetOp)
    (xs ys : List FleetOp) (s t : FoldState)
    → ((i : ℕ) (op : FleetOp) (w w' : Walk)
        → fold_step p first.handle_proof (suc i) op w ≡ ok w'
        → f w.state ≡ false
        → f w'.state ≡ true
        → P op w.state)
    → fold_inner p (first ∷ xs) ≡ ok s
    → fold_inner p ((first ∷ xs) ++ ys) ≡ ok t
    → f s ≡ false
    → f t ≡ true
    → Happens p (first ∷ xs) ys P
unfolding fold_inner
fold_inner-gains p f P first xs ys s t step e h a b =
    let (v, w, walked, before, after, result) = fold_inner-append p first xs ys t h in
    let same : v.state ≡ s = cc in
    let n = 0 + length (first ∷ xs) in
    let (zs, op, us, u, u', split, there, stepped, lacks, gains) =
      fold_ops-gains p first.handle_proof (λ (o : Walk). f o.state) n ys v w after (rw same a)
        (rw result b) in
    let whole : fold_ops p first.handle_proof 0 ((first ∷ xs) ++ zs) (start p) ≡ ok u =
      append-fold_ops p first.handle_proof 0 (first ∷ xs) zs (start p) v walked ∙ there in
    let place : 0 + suc (length xs) + length zs ≡ suc (length xs + length zs) = omega arith in
    (
      zs,
      op,
      us,
      u.state,
      split,
      rw whole refl,
      step (length xs + length zs) op u u' (rw place at stepped) lacks gains,
    )
