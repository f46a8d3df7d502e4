-- ===== src/Attest/Verdict.antt =====
-- src/attest.rs `attest_verdict`.
use fgtw.Base.{
  ℕ, Bool, true, false, Option, none, some, List, [], ◌∷◌, ◌++◌, ltb, length, if◌then◌else◌,
}
use fgtw.Base.Bytes.{Bytes, eqb}
use fgtw.Base.Result.{Result, ok, err}
use fgtw.Primitives.{Primitives}
use fgtw.Fleet.Members.{contains}
use fgtw.Fleet.Fold.Walk.{FoldError, empty}
use fgtw.Fleet.Query.{MembershipBlob, fold, handle_proof}

pub data SeedAnswer : Type 0 where
  chain : MembershipBlob → SeedAnswer
  not_found silent : SeedAnswer

pub data AttestVerdict : Type 0 where
  fresh member join_ours wrong_fleet unreachable : AttestVerdict
  unverifiable : FoldError → AttestVerdict

-- The loop's variables.
pub record Seen : Type 0 where
  pub ours : Option (ℕ × Bool)
  pub wrong_slot : Bool
  pub unverifiable_with : Option FoldError

abbrev pub option_list {ℓ} : {A : Type ℓ} → Option A → List A
option_list none = []
option_list (some a) = a ∷ []

-- The seed's chain, if it has one.
abbrev pub seed_chain : SeedAnswer → Option MembershipBlob
seed_chain (chain c) = some c
seed_chain _ = none

abbrev pub candidates :
    Option MembershipBlob → List MembershipBlob → SeedAnswer → List MembershipBlob
candidates held peers seed = option_list (seed_chain seed) ++ (option_list held ++ peers)

-- `chain.genesis_handle_proof() == Some(*handle_proof)`
unfoldable pub at_slot : Option Bytes → Bytes → Bool
at_slot none slot = false
at_slot (some h) slot = eqb h slot

-- `ours.map_or(true, |(best, _)| len > best)`
unfoldable pub advances : Option (ℕ × Bool) → ℕ → Bool
advances none n = true
advances (some best) n = ltb best.0 n

unfoldable pub note_error : FoldError → Seen → Seen
note_error empty seen = seen
note_error e seen = elim seen.unverifiable_with [
  | none ↦ record seen { unverifiable_with = some e }
  | some first ↦ seen
]

abbrev pub nothing_seen : Seen
nothing_seen = record { ours = none; wrong_slot = false; unverifiable_with = none }

-- What is left to say when no chain at the slot was verified.
unfoldable pub seed_verdict : SeedAnswer → AttestVerdict
seed_verdict silent = unreachable
seed_verdict _ = fresh

unfoldable pub error_verdict : Option FoldError → SeedAnswer → AttestVerdict
error_verdict (some e) seed = unverifiable e
error_verdict none seed = seed_verdict seed

unfoldable pub decide_ours : Option (ℕ × Bool) → Seen → SeedAnswer → AttestVerdict
decide_ours (some best) seen seed = if best.1 then member else join_ours
decide_ours none seen seed =
    if seen.wrong_slot then wrong_fleet else error_verdict seen.unverifiable_with seed

module _ (p : Primitives) (slot device : Bytes) where
  unfoldable pub note_members : MembershipBlob → List Bytes → Seen → Seen
  note_members c members seen =
      if at_slot (handle_proof c) slot
      then if advances seen.ours (length c)
        then record seen { ours = some (length c, contains members device) }
        else seen
      else record seen { wrong_slot = true }

  unfoldable pub note_fold : MembershipBlob → Result FoldError (List Bytes) → Seen → Seen
  note_fold c (ok members) seen = note_members c members seen
  note_fold c (err e) seen = note_error e seen

  unfoldable pub look : List MembershipBlob → Seen → Seen
  look [] seen = seen
  look (c ∷ cs) seen = look cs (note_fold c (fold p c) seen)

  unfoldable pub attest_verdict :
      Option MembershipBlob → List MembershipBlob → SeedAnswer → AttestVerdict
  attest_verdict held peers seed =
      let seen = look (candidates held peers seed) nothing_seen in decide_ours seen.ours seen seed
