-- ===== src/Traverse/Reflexive.antt =====
-- src/traverse/reflexive.rs `ReflexiveState`: how a device learns its own public address.
use fgtw.Base.{
  ℕ, Bool, true, false, not, ◌&&◌, Option, none, some, List, [], ◌∷◌, ◌++◌, leb, length, drop,
  if◌then◌else◌,
}
use fgtw.Base.Bytes.{Bytes}
use fgtw.Fleet.Members.{contains}
use fgtw.Traverse.Address.{SocketAddr, IpAddr, ip, is_ipv6, eqb_addr, is_bogus_addr, is_lan_scope}
pub mod Votes
pub mod Backing
pub mod Bounds

-- A pending address, and the devices that claimed it.
pub record Vote : Type 0 where
  pub addr : SocketAddr
  pub voters : List Bytes

pub record ReflexiveState : Type 0 where
  pub held4 : Option SocketAddr
  pub held6 : Option SocketAddr
  pub votes : List Vote

abbrev pub new : ReflexiveState
new = record { held4 = none; held6 = none; votes = [] }

abbrev pub quorum : ℕ
quorum = 2

abbrev pub max_pending : ℕ
max_pending = 8

-- `votes.iter().any(|(a, _)| *a == observed)`
unfoldable pub is_pending : SocketAddr → List Vote → Bool
is_pending observed [] = false
is_pending observed (v ∷ vs) = if eqb_addr v.addr observed then true else is_pending observed vs

-- The list with an entry for the address: at most `max_pending`, the oldest gives way.
unfoldable pub open_vote : SocketAddr → List Vote → List Vote
open_vote observed votes =
    if is_pending observed votes
    then votes
    else (if leb max_pending (length votes) then drop 1 votes else votes)
      ++ record { addr = observed; voters = [] } ∷ []

-- The voter is entered once under the first entry for the address.
unfoldable pub cast : SocketAddr → Bytes → List Vote → List Vote
cast observed voter [] = []
cast observed voter (v ∷ vs) =
    let rest = cast observed voter vs in
    if eqb_addr v.addr observed
    then (if contains v.voters voter then v else record v { voters = v.voters ++ voter ∷ [] }) ∷ vs
    else v ∷ rest

unfoldable pub voters_of : SocketAddr → List Vote → List Bytes
voters_of observed [] = []
voters_of observed (v ∷ vs) =
    let rest = voters_of observed vs in if eqb_addr v.addr observed then v.voters else rest

-- `votes.retain(|(a, _)| *a != observed)`
unfoldable pub drop_votes : SocketAddr → List Vote → List Vote
drop_votes observed [] = []
drop_votes observed (v ∷ vs) =
    let rest = drop_votes observed vs in if eqb_addr v.addr observed then rest else v ∷ rest

-- `slot.is_some_and(|held| !is_lan_scope(&held))`
unfoldable pub holds_public : Option SocketAddr → Bool
holds_public none = false
holds_public (some held) = not (is_lan_scope held)

unfoldable pub slot_is : Option SocketAddr → SocketAddr → Bool
slot_is none observed = false
slot_is (some held) observed = eqb_addr held observed

abbrev pub slot_of : SocketAddr → ReflexiveState → Option SocketAddr
slot_of observed s = if is_ipv6 observed then s.held6 else s.held4

unfoldable pub adopt : SocketAddr → ReflexiveState → Option SocketAddr × ReflexiveState
adopt observed s =
    if is_lan_scope observed && holds_public (slot_of observed s)
    then (none, s)
    else if slot_is (slot_of observed s) observed
    then (none, s)
    else (
      some observed,
      record {
        held4 = if is_ipv6 observed then s.held4 else some observed;
        held6 = if is_ipv6 observed then some observed else s.held6;
        votes = drop_votes observed s.votes;
      },
    )

-- `ReflexiveState::record`
unfoldable pub record_claim :
    SocketAddr → Bytes → Bool → ReflexiveState → Option SocketAddr × ReflexiveState
unfolding adopt
record_claim observed voter trusted s =
    let votes = cast observed voter (open_vote observed s.votes) in
    if is_bogus_addr observed
    then (none, s)
    else if trusted
    then adopt observed s
    else if leb quorum (length (voters_of observed votes))
    then adopt observed (record s { votes = votes })
    else (none, record s { votes = votes })

-- `ReflexiveState::clear`
abbrev pub clear : ReflexiveState → ReflexiveState
clear s = record { held4 = none; held6 = none; votes = [] }

-- `ReflexiveState::public_ip`
unfoldable pub public_ip : ReflexiveState → Option IpAddr
public_ip s = elim s.held4 [
  | some a ↦ some (ip a)
  | none ↦ elim s.held6 [ some a ↦ some (ip a) | none ↦ none ]
]
