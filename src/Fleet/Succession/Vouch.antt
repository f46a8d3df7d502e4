-- ===== src/Fleet/Succession/Vouch.antt =====
-- What a succession accepted by src/fleet.rs `verify_for_pin` proves.
use fgtw.Base.{
  ◌≡◌, ap, subst, ◌∙◌, inl, inr, true, false, not, Option, none, some, List, [], ◌∷◌, arith,
  Bool-cases,
}
use fgtw.Base.Bytes.{Bytes, eqb, eqb_iff}
use fgtw.Base.Result.{Result, ok, err, >>=-eq-ok, reject, ◌>>◌, reject-eq-ok, ok_or}
use fgtw.Primitives.{Primitives}
use fgtw.Pq.Bundle.{ed25519_only, unwrap_or}
use fgtw.Pq.Eggs.{verify_eggs}
use fgtw.Fleet.Members.{contains, find_slot}
use fgtw.Fleet.Fold.Walk.{FoldError, FoldState}
use fgtw.Fleet.Fold.Step.{fold_inner}
use fgtw.Fleet.Query.{genesis_hash, handle_proof}
use fgtw.Fleet.Succession.{
  ContinuityEgg, SuccessorRecord, SuccessionError, no_genesis, other_pin, other_handle,
  unknown_scheme, no_vouch, succession_signing_bytes, eggs_by, vouchers, names_unknown, vouches,
  any_vouches, lift_fold, is_handle, verify_for_pin,
}

module _ (p : Primitives) where
  -- A member of the predecessor chain whose eggs, all of them, verify the transition under the bundle
  -- that chain holds, and cover its floor.
  abbrev pub IsVoucher : FoldState → Bytes → List ContinuityEgg → Bytes → Type 0
  IsVoucher pred msg eggs d =
      (contains pred.members d ≡ true)
      × (verify_eggs p (eggs_by d eggs) (unwrap_or (ed25519_only p d) (find_slot d pred.bundles))
            msg pred.floor
          ≡ true)

  any_vouches-IsVoucher :
      (pred : FoldState) (msg : Bytes) (eggs : List ContinuityEgg) (ds : List Bytes)
      → any_vouches p pred msg eggs ds ≡ true
      → (d : Bytes) × IsVoucher pred msg eggs d
  unfolding any_vouches vouches
  any_vouches-IsVoucher pred msg eggs [] e = cc
  any_vouches-IsVoucher pred msg eggs (d ∷ ds) e = elim (Bool-cases (contains pred.members d)) [
    | inl member ↦
        elim (Bool-cases (
          verify_eggs p (eggs_by d eggs) (unwrap_or (ed25519_only p d) (find_slot d pred.bundles))
            msg pred.floor)) [
              | inl good ↦ (d, (member, good))
              | inr bad ↦ any_vouches-IsVoucher pred msg eggs ds (ground (arith, e, member, bad))
            ]
    | inr other ↦ any_vouches-IsVoucher pred msg eggs ds (ground (arith, e, other))
  ]

  ok_or-eq-ok : (o : Option Bytes) (e : SuccessionError) {b : Bytes} → ok_or o e ≡ ok b → o ≡ some b
  ok_or-eq-ok none e h = cc
  ok_or-eq-ok (some a) e h = cc

  lift_fold-eq-ok :
      (r : Result FoldError FoldState) {s : FoldState} → lift_fold p r ≡ ok s → r ≡ ok s
  lift_fold-eq-ok (ok s) h = cc
  lift_fold-eq-ok (err e) h = cc

  is_handle-some : (o : Option Bytes) (hp : Bytes) → is_handle p o hp ≡ true → o ≡ some hp
  is_handle-some none hp h = cc
  is_handle-some (some a) hp h = ap some ((eqb_iff a hp).0 h)

  -- A succession is accepted only from the pinned chain: the predecessor folds, its genesis is the
  -- pin and its handle the record's, every egg names a known scheme, and some member of its fold
  -- vouches for this transition at its floor.
  pub verify_for_pin-IsVoucher :
      (r : SuccessorRecord) (pinned : Bytes)
      → verify_for_pin p r pinned ≡ ok tt
      → (pred : FoldState) × (fold_inner p r.predecessor ≡ ok pred)
        × (genesis_hash p r.predecessor ≡ some pinned)
        × (handle_proof r.predecessor ≡ some r.handle_proof)
        × (names_unknown p r.continuity_eggs ≡ false)
        × ((d : Bytes) × IsVoucher pred
              (succession_signing_bytes r.handle_proof pinned r.new_genesis_hash)
              r.continuity_eggs
              d)
  unfolding verify_for_pin
  verify_for_pin-IsVoucher r pinned accepted =
      let (pred, folds, rest₁) = >>=-eq-ok (lift_fold p (fold_inner p r.predecessor)) _ accepted in
      let (old, hashed, rest₂) =
        >>=-eq-ok (ok_or (genesis_hash p r.predecessor) no_genesis) _ rest₁ in
      let vouch = not (
        any_vouches p pred (succession_signing_bytes r.handle_proof old r.new_genesis_hash)
          r.continuity_eggs (vouchers r.continuity_eggs)) in
      let after : Result SuccessionError Unit = reject vouch no_vouch >> ok tt in
      let after₂ : Result SuccessionError Unit =
        reject (names_unknown p r.continuity_eggs) unknown_scheme >> after in
      let other = not (is_handle p (handle_proof r.predecessor) r.handle_proof) in
      let (pin, rest₃) =
        reject-eq-ok (not (eqb old pinned)) other_pin (reject other other_handle >> after₂) rest₂ in
      let (handle, rest₄) = reject-eq-ok other other_handle after₂ rest₃ in
      let (known, rest₅) =
        reject-eq-ok (names_unknown p r.continuity_eggs) unknown_scheme after rest₄ in
      let (vouched, _) = reject-eq-ok vouch no_vouch (ok tt) rest₅ in
      let same : old ≡ pinned = (eqb_iff old pinned).0 (ground (arith, pin)) in
      let any : any_vouches p pred
            (succession_signing_bytes r.handle_proof pinned r.new_genesis_hash) r.continuity_eggs
            (vouchers r.continuity_eggs)
          ≡ true =
        subst
          (λ o.
            any_vouches p pred (succession_signing_bytes r.handle_proof o r.new_genesis_hash)
              r.continuity_eggs (vouchers r.continuity_eggs)
            ≡ true)
          same (ground (arith, vouched)) in
      (
        pred,
        lift_fold-eq-ok (fold_inner p r.predecessor) folds,
        ok_or-eq-ok (genesis_hash p r.predecessor) no_genesis hashed ∙ ap some same,
        is_handle-some (handle_proof r.predecessor) r.handle_proof (ground (arith, handle)),
        known,
        any_vouches-IsVoucher pred _ r.continuity_eggs (vouchers r.continuity_eggs) any,
      )
