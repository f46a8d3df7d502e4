-- ===== src/Fleet/Fold/Changes.antt =====
-- Which kinds of op of src/fleet.rs change the members, and what they have passed.
use Prim.Native.Nat.{bit_or}
use fgtw.Base.{ℕ, ◌≤◌, ◌≡◌, refl, ◌⊎◌, inl, inr, true, false, arith}
use fgtw.Base.Bytes.{Bytes, eqb_iff}
use fgtw.Base.Int.{abs_diff}
use fgtw.Base.Result.{ok}
use fgtw.Primitives.{Primitives}
use fgtw.Pq.Bundle.{mask}
use fgtw.Fleet.Op.{FleetOp, OpKind, genesis, add, remove, checkpoint, declare, lock, unlock}
use fgtw.Fleet.Signing.{verify_consent, bundle_or_ed, consent_window}
use fgtw.Fleet.Members.{contains, contains-append, contains-retain_ne}
use fgtw.Fleet.Fold.Walk.{Walk}
use fgtw.Fleet.Fold.Apply.{apply_kind}
use fgtw.Fleet.Fold.Inversion.{LeavesByConsent}
use fgtw.Fleet.Fold.Effects.{apply_kind-eq-ok}

-- Where the members may change, by kind.
pub apply_kind-drops :
    (p : Primitives) (k : OpKind) (i : ℕ) (op : FleetOp) (w v : Walk) (d : Bytes)
    → apply_kind p k i op w ≡ ok v
    → contains w.members d ≡ true
    → contains v.members d ≡ false
    → (k ≡ remove) × (op.device_pubkey ≡ d) × LeavesByConsent p op w.state
apply_kind-drops p genesis i op w v d h a b =
    let facts = (apply_kind-eq-ok p genesis i op w v h).0 in
    absurd (ground (arith, facts.result, contains-append w.members op.device_pubkey d))
apply_kind-drops p add i op w v d h a b =
    let facts = (apply_kind-eq-ok p add i op w v h).0 in
    absurd (ground (arith, facts.result, contains-append w.members op.device_pubkey d))
apply_kind-drops p remove i op w v d h a b =
    let facts = (apply_kind-eq-ok p remove i op w v h).0 in
    (
      refl,
      ground (
        arith,
        facts.result,
        contains-retain_ne op.device_pubkey d w.members,
        eqb_iff op.device_pubkey d,
      ),
      facts.leave,
    )
apply_kind-drops p declare i op w v d h a b =
    absurd (ground (arith, (apply_kind-eq-ok p declare i op w v h).0.result))
apply_kind-drops p lock i op w v d h a b =
    absurd (ground (arith, (apply_kind-eq-ok p lock i op w v h).0.result))
apply_kind-drops p unlock i op w v d h a b =
    absurd (ground (arith, (apply_kind-eq-ok p unlock i op w v h).0.result))
apply_kind-drops p checkpoint i op w v d h a b =
    absurd (ground (arith, (apply_kind-eq-ok p checkpoint i op w v h).1))

pub apply_kind-gains :
    (p : Primitives) (k : OpKind) (i : ℕ) (op : FleetOp) (w v : Walk) (d : Bytes)
    → apply_kind p k i op w ≡ ok v
    → contains w.members d ≡ false
    → contains v.members d ≡ true
    → (op.device_pubkey ≡ d)
      × (((i ≡ 0) × (k ≡ genesis) × (op.signer_pubkey ≡ d))
          ⊎ ((k ≡ add)
              × (contains w.members op.signer_pubkey ≡ true)
              × (verify_consent p op
                    (bundle_or_ed p op.device_pubkey op.bundle)
                    (bit_or (mask (bundle_or_ed p op.device_pubkey op.bundle)) w.floor)
                  ≡ true)
              × (abs_diff op.eagle_time op.consent_t ≤ consent_window p)))
apply_kind-gains p genesis i op w v d h a b =
    let facts = (apply_kind-eq-ok p genesis i op w v h).0 in
    let subject : op.device_pubkey ≡ d = ground (
      arith,
      facts.result,
      contains-append w.members op.device_pubkey d,
      eqb_iff op.device_pubkey d,
    ) in
    (subject, inl (facts.at_start, refl, cc facts.self_signed))
apply_kind-gains p add i op w v d h a b =
    let facts = (apply_kind-eq-ok p add i op w v h).0 in
    (
      ground (
        arith,
        facts.result,
        contains-append w.members op.device_pubkey d,
        eqb_iff op.device_pubkey d,
      ),
      inr (refl, facts.sponsor, facts.consented, facts.timely),
    )
apply_kind-gains p remove i op w v d h a b =
    let facts = (apply_kind-eq-ok p remove i op w v h).0 in
    absurd (ground (arith, facts.result, contains-retain_ne op.device_pubkey d w.members))
apply_kind-gains p declare i op w v d h a b =
    absurd (ground (arith, (apply_kind-eq-ok p declare i op w v h).0.result))
apply_kind-gains p lock i op w v d h a b =
    absurd (ground (arith, (apply_kind-eq-ok p lock i op w v h).0.result))
apply_kind-gains p unlock i op w v d h a b =
    absurd (ground (arith, (apply_kind-eq-ok p unlock i op w v h).0.result))
apply_kind-gains p checkpoint i op w v d h a b =
    absurd (ground (arith, (apply_kind-eq-ok p checkpoint i op w v h).1))
