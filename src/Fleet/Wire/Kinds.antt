-- ===== src/Fleet/Wire/Kinds.antt =====
-- The values of one kind: src/fleet.rs `parse_op` on what `op_field_values` writes for it.
use fgtw.Base.{◌≡◌, refl, ◌%◌, ◌^◌, Option, none, some, List, [], ◌∷◌, ◌++◌, arith, true}
use fgtw.Base.Bytes.{Bytes}
use fgtw.Base.Int.{ℤ}
use fgtw.Base.Result.{ok}
use fgtw.Primitives.{Primitives, Egg, EggsRoundTrip}
use fgtw.Pq.Bundle.{KeyBundle}
use fgtw.Fleet.Op.{
  OpKind, genesis, add, remove, checkpoint, declare, lock, unlock, OpVersion, v1, v2, v3, v4,
  FleetOp,
}
use fgtw.Fleet.Wire.{
  VsfType, u, hp_value, hb, ke, ge, e, et_to_osc, identity_sig_value, consent_to_wire, leave_values,
  kind_values, bundle_values,
}
use fgtw.Fleet.Wire.Values.{VsfReads, Extras, no_extras, bad_identity, bad_commit}
use fgtw.Fleet.Wire.Parse.{consent_from_wire, parse_identity, parse_remove, parse_extras}
use fgtw.Fleet.Wire.Carries.{IsConsent, IsLeaveConsent, HasKindFields}
use fgtw.Fleet.Wire.Stages.{quiet, take_32-Is32}

abbrev pub extras_of : FleetOp → Extras
extras_of op = record {
  identity_pubkey = op.identity_pubkey;
  identity_sig = op.identity_sig;
  consent_t = op.consent_t;
  consent = op.consent;
  ckpt_k = op.ckpt_k;
  ckpt_commit = op.ckpt_commit;
  ckpt_fanout_epoch = op.ckpt_fanout_epoch;
}

module _ (p : Primitives) (reads : VsfReads) where
  consent_from_wire-consent_to_wire :
      (version : OpVersion) (eggs : List Egg)
      → EggsRoundTrip p
      → IsConsent p version eggs
      → consent_from_wire p reads version (consent_to_wire p version eggs) ≡ ok eggs
  unfolding consent_from_wire consent_to_wire
  consent_from_wire-consent_to_wire v1 eggs law (sig, one) = rw one refl
  consent_from_wire-consent_to_wire v2 eggs law one = rw (law.eggs_round_trip eggs) refl
  consent_from_wire-consent_to_wire v3 eggs law one = rw (law.eggs_round_trip eggs) refl
  consent_from_wire-consent_to_wire v4 eggs law one = rw (law.eggs_round_trip eggs) refl

  parse_identity-identity_sig :
      (key sig : Bytes) (rest : List VsfType)
      → quiet rest ≡ true
      → parse_identity p reads key (identity_sig_value sig ++ rest)
        ≡ (record no_extras { identity_pubkey = key; identity_sig = sig }, rest)
  parse_identity-identity_sig key (b ∷ bs) rest h = refl
  parse_identity-identity_sig key [] [] h = refl
  parse_identity-identity_sig key [] (u n f ∷ vs) h = refl
  parse_identity-identity_sig key [] (hp_value b ∷ vs) h = refl
  parse_identity-identity_sig key [] (hb b ∷ vs) h = refl
  parse_identity-identity_sig key [] (ke b ∷ vs) h = refl
  parse_identity-identity_sig key [] (ge b ∷ vs) h = cc
  parse_identity-identity_sig key [] (e et ∷ vs) h = cc
  parse_identity-identity_sig key [] (VsfType.other n ∷ vs) h = refl

  parse_remove-quiet :
      (version : OpVersion) (rest : List VsfType)
      → quiet rest ≡ true
      → parse_remove p reads version rest ≡ ok (no_extras, rest)
  parse_remove-quiet version [] h = refl
  parse_remove-quiet version (u n f ∷ vs) h = refl
  parse_remove-quiet version (hp_value b ∷ vs) h = refl
  parse_remove-quiet version (hb b ∷ vs) h = refl
  parse_remove-quiet version (ke b ∷ vs) h = refl
  parse_remove-quiet version (ge b ∷ vs) h = cc
  parse_remove-quiet version (e et ∷ vs) h = cc
  parse_remove-quiet version (VsfType.other n ∷ vs) h = refl

  parse_remove-leave_values :
      (version : OpVersion) (t : ℤ) (eggs : List Egg) (rest : List VsfType)
      → EggsRoundTrip p
      → IsLeaveConsent p version t eggs
      → quiet rest ≡ true
      → parse_remove p reads version (leave_values p version t eggs ++ rest)
        ≡ ok (record no_extras { consent_t = t; consent = eggs }, rest)
  unfolding et_to_osc
  parse_remove-leave_values version t [] rest law timeless h =
      rw timeless (parse_remove-quiet version rest h)
  parse_remove-leave_values version t (egg ∷ eggs) rest law one h =
      rw (consent_from_wire-consent_to_wire version (egg ∷ eggs) law one) refl

  -- What a kind needs of the values behind its own.
  abbrev pub Behind : OpKind → List VsfType → Type 0
  Behind genesis rest = quiet rest ≡ true
  Behind remove rest = quiet rest ≡ true
  Behind _ rest = Unit

  pub parse_extras-kind_values :
      (kind : OpKind) (op : FleetOp) (rest : List VsfType)
      → EggsRoundTrip p
      → HasKindFields p kind op
      → Behind kind rest
      → parse_extras p reads op.version kind (kind_values p kind op ++ rest)
        ≡ ok (extras_of op, rest)
  unfolding parse_extras kind_values
  parse_extras-kind_values genesis op rest law (key32, (t, c), (k, commit, epoch)) h =
      rw
        (
          take_32-Is32 op.identity_pubkey bad_identity key32,
          parse_identity-identity_sig op.identity_pubkey op.identity_sig rest h,
          t,
          c,
          k,
          commit,
          epoch,
        )
        refl
  parse_extras-kind_values add op rest law (one, (key, sig), (k, commit, epoch)) h =
      rw
        (
          consent_from_wire-consent_to_wire op.version op.consent law one,
          key,
          sig,
          k,
          commit,
          epoch,
        )
        refl
  parse_extras-kind_values remove op rest law (one, (key, sig), (k, commit, epoch)) h =
      rw
        (
          parse_remove-leave_values op.version op.consent_t op.consent rest law one h,
          key,
          sig,
          k,
          commit,
          epoch,
        )
        refl
  parse_extras-kind_values checkpoint op rest law (k, commit32, epoch, (key, sig), (t, c)) h =
      let small_k : op.ckpt_k % 2 ^ 64 ≡ op.ckpt_k = omega (arith, k) in
      let small_epoch : op.ckpt_fanout_epoch % 2 ^ 64 ≡ op.ckpt_fanout_epoch =
        omega (arith, epoch) in
      rw (small_k, take_32-Is32 op.ckpt_commit bad_commit commit32, small_epoch, key, sig, t, c)
        refl
  parse_extras-kind_values declare op rest law ((key, sig), (t, c), (k, commit, epoch)) h =
      rw (key, sig, t, c, k, commit, epoch) refl
  parse_extras-kind_values lock op rest law ((key, sig), (t, c), (k, commit, epoch)) h =
      rw (key, sig, t, c, k, commit, epoch) refl
  parse_extras-kind_values unlock op rest law ((key, sig), (t, c), (k, commit, epoch)) h =
      rw (key, sig, t, c, k, commit, epoch) refl

  -- The values behind a kind's own are as it needs them.
  pub bundle_values-Behind :
      (kind : OpKind) (bundle : Option KeyBundle) (rest : List VsfType)
      → quiet rest ≡ true
      → Behind kind (bundle_values kind bundle ++ rest)
  bundle_values-Behind genesis none rest h = h
  bundle_values-Behind genesis (some b) rest h = h
  bundle_values-Behind remove none rest h = h
  bundle_values-Behind remove (some b) rest h = h
  bundle_values-Behind add bundle rest h = tt
  bundle_values-Behind checkpoint bundle rest h = tt
  bundle_values-Behind declare bundle rest h = tt
  bundle_values-Behind lock bundle rest h = tt
  bundle_values-Behind unlock bundle rest h = tt
