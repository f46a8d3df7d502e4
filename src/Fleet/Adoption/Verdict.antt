-- ===== src/Fleet/Adoption/Verdict.antt =====
-- src/fleet.rs `Adoption`, `extends`, `adoption`.
use fgtw.Base.{
  Bool, true, false, not, ◌&&◌, Option, none, some, List, ◌==◌, leb, length, take, if◌then◌else◌,
  ℕ_discrete,
}
use fgtw.Base.Bytes.{Bytes}
use mathlib.Core.Bool.{decide}
use fgtw.Primitives.{Primitives}
use fgtw.Pq.Bundle.{Key, KeyBundle}
use fgtw.Fleet.Op.{FleetOp}
use fgtw.Fleet.Query.{MembershipBlob, genesis_hash}

-- `#[derive(PartialEq)]`
Key-discrete : Discrete Key
Key-discrete = hlevel ℕ_discrete

KeyBundle-discrete : Discrete KeyBundle
unfolding Key-discrete
KeyBundle-discrete = hlevel (Key-discrete, ℕ_discrete)

FleetOp-discrete : Discrete FleetOp
unfolding KeyBundle-discrete
FleetOp-discrete = hlevel (KeyBundle-discrete, ℕ_discrete)

-- `==` on slices of ops.
unfoldable pub same_ops : Discrete (List FleetOp)
unfolding FleetOp-discrete
same_ops = hlevel FleetOp-discrete

bytes_option_discrete : Discrete (Option Bytes)
bytes_option_discrete = hlevel ℕ_discrete

-- `==` on genesis hashes.
unfoldable pub same_genesis : Discrete (Option Bytes)
unfolding bytes_option_discrete
same_genesis = bytes_option_discrete

pub data Adoption : Type 0 where
  first extended unchanged stale fork different_genesis : Adoption

abbrev pub lands : Adoption → Bool
lands first = true
lands extended = true
lands unchanged = true
lands _ = false

unfoldable pub extends : MembershipBlob → MembershipBlob → Bool
extends ops prior =
    leb (length prior) (length ops) && decide (same_ops (take (length prior) ops) prior)

module _ (p : Primitives) where
  unfoldable pub compare_chains : MembershipBlob → MembershipBlob → Adoption
  compare_chains ops old =
      if not (decide (same_genesis (genesis_hash p ops) (genesis_hash p old)))
      then different_genesis
      else if (length ops == length old) && extends ops old
      then unchanged
      else if extends ops old
      then extended
      else if extends old ops
      then stale
      else fork

  unfoldable pub adoption : MembershipBlob → Option MembershipBlob → Adoption
  unfolding compare_chains
  adoption ops none = first
  adoption ops (some old) = compare_chains ops old
