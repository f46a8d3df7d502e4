-- ===== src/Fleet/Query/History.antt =====
-- Membership at a past time, src/fleet.rs `was_member_at`.
use fgtw.Base.{
  suc, ◌≡◌, refl, sym, ap, inl, inr, true, false, not, ◌&&◌, List, [], ◌∷◌, ◌++◌, arith, length,
  take, drop, take-append-drop, All, Bool-cases,
}
use fgtw.Base.Bytes.{Bytes}
use fgtw.Base.Int.{ℤ, leb_ℤ}
use fgtw.Base.Result.{ok}
use fgtw.Primitives.{Primitives}
use fgtw.Fleet.Op.{FleetOp}
use fgtw.Fleet.Members.{contains}
use fgtw.Fleet.Fold.Walk.{FoldState}
use fgtw.Fleet.Fold.Step.{fold_inner}
use fgtw.Fleet.Query.{MembershipBlob, fold, locked_out, holds, count_upto, is_member, was_member_at}

-- The first op of a list, if any, is stamped after `t`.
abbrev pub StartsAfter : ℤ → List FleetOp → Type 0
StartsAfter t [] = Unit {0}
StartsAfter t (op ∷ ops) = leb_ℤ op.eagle_time t ≡ false

abbrev pub StampedUpto : ℤ → List FleetOp → Type 0
StampedUpto t ops = All (λ (op : FleetOp). leb_ℤ op.eagle_time t ≡ true) ops

-- The ops that are counted are the longest beginning that is stamped at or before `t`.
count_upto-split :
    (t : ℤ) (ops : List FleetOp)
    → StampedUpto t (take (count_upto t ops) ops) × StartsAfter t (drop (count_upto t ops) ops)
unfolding count_upto
count_upto-split t [] = (tt, tt)
count_upto-split t (op ∷ ops) = elim (Bool-cases (leb_ℤ op.eagle_time t)) [
  | inl early ↦
      let (before, after) = count_upto-split t ops in
      rw (early, count_upto) ((early, before), after)
  | inr late ↦ rw (late, count_upto) (tt, late)
]

count_upto-all : (t : ℤ) (ops : List FleetOp) → StampedUpto t ops → count_upto t ops ≡ length ops
unfolding count_upto
count_upto-all t [] h = refl
count_upto-all t (op ∷ ops) h = rw (h.0, count_upto) (ap suc (count_upto-all t ops h.1))

take_all : (ops : List FleetOp) → take (length ops) ops ≡ ops
take_all [] = refl
take_all (op ∷ ops) = ap (◌∷◌ op) (take_all ops)

-- A device answers as a past member only if the chain splits where the stamps first pass `t`, the
-- part before folds to a set that holds the device, and the whole chain folds and has not locked it.
pub was_member_at-split :
    (p : Primitives) (ops : MembershipBlob) (d : Bytes) (t : ℤ)
    → was_member_at p ops d t ≡ true
    → (before : MembershipBlob) × (after : MembershipBlob) × (ops ≡ before ++ after)
      × StampedUpto t before
      × StartsAfter t after
      × (is_member p before d ≡ true)
      × (holds (locked_out p ops) true d ≡ false)
unfolding was_member_at is_member
was_member_at-split p ops d t h =
    let n = count_upto t ops in
    let (early, late) = count_upto-split t ops in
    (take n ops, drop n ops, sym (take-append-drop n ops), early, late, ground arith, ground arith)

-- At a time no op is stamped after, the past members are today's members that are not locked out.
pub was_member_at-now :
    (p : Primitives) (op : FleetOp) (rest : MembershipBlob) (s : FoldState) (d : Bytes) (t : ℤ)
    → fold_inner p (op ∷ rest) ≡ ok s
    → StampedUpto t (op ∷ rest)
    → was_member_at p (op ∷ rest) d t ≡ (contains s.members d && not (contains s.locked d))
unfolding was_member_at fold locked_out holds
was_member_at-now p op rest s d t h early =
    let all : count_upto t (op ∷ rest) ≡ length (op ∷ rest) = count_upto-all t (op ∷ rest) early in
    rw (all, take_all (op ∷ rest), h) (ground arith)
