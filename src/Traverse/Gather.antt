-- ===== src/Traverse/Gather.antt =====
-- src/traverse/gather.rs: the candidates of a peer and our own.
use fgtw.Base.{ℕ, Bool, true, false, not, ◌&&◌, Option, none, some, List, [], ◌∷◌, if◌then◌else◌}
use fgtw.Traverse.Address.{
  Ipv4, SocketAddr, sock4, sock6, is_ipv6, is_bogus_addr, is_usable_lan_ipv4, is_private_ipv4,
  peer_lan_reachable,
}
use fgtw.Traverse.Candidate.{
  CandidateKind, host_v6, host_v4_lan, host_v4_p2p, reflexive, candidate, CandidateSet,
  add_candidate,
}
pub mod Sources

unfoldable pub public_kind : SocketAddr → CandidateKind
public_kind addr = if is_ipv6 addr then host_v6 else reflexive

pub data LanPolicy : Type 0 where
  any_usable : LanPolicy
  same_subnet_as : Option Ipv4 → LanPolicy

abbrev policy_allows : LanPolicy → Ipv4 → Bool
policy_allows any_usable v = true
policy_allows (same_subnet_as ours) v = peer_lan_reachable v ours

-- `LanPolicy::admits`
unfoldable pub admits : LanPolicy → Ipv4 → Bool
admits policy v = is_usable_lan_ipv4 v && policy_allows policy v

pub record PeerEndpoint : Type 0 where
  pub public : Option SocketAddr
  pub lan : Option SocketAddr

unfoldable pub add_lan : LanPolicy → Option SocketAddr → CandidateSet → CandidateSet
add_lan policy (some (sock4 v port)) set =
    if admits policy v then add_candidate (candidate (sock4 v port) host_v4_lan) set else set
add_lan policy (some (sock6 v port flow scope)) set = set
add_lan policy none set = set

unfoldable pub add_public : LanPolicy → Option SocketAddr → CandidateSet → CandidateSet
unfolding add_lan
add_public policy none set = set
add_public policy (some (sock4 v port)) set =
    if is_bogus_addr (sock4 v port)
    then set
    else if is_private_ipv4 v
    then if admits policy v then add_candidate (candidate (sock4 v port) host_v4_lan) set else set
    else add_candidate (candidate (sock4 v port) (public_kind (sock4 v port))) set
add_public policy (some (sock6 v port flow scope)) set =
    if is_bogus_addr (sock6 v port flow scope)
    then set
    else add_candidate (candidate (sock6 v port flow scope) (public_kind (sock6 v port flow scope)))
        set

unfoldable pub add_endpoints : LanPolicy → List PeerEndpoint → CandidateSet → CandidateSet
add_endpoints policy [] set = set
add_endpoints policy (ep ∷ eps) set =
    add_endpoints policy eps (add_lan policy ep.lan (add_public policy ep.public set))

unfoldable pub add_p2p : Option SocketAddr → CandidateSet → CandidateSet
add_p2p none set = set
add_p2p (some addr) set =
    if is_bogus_addr addr then set else add_candidate (candidate addr host_v4_p2p) set

unfoldable pub gather_peer_candidates :
    List PeerEndpoint → Option SocketAddr → LanPolicy → CandidateSet
gather_peer_candidates endpoints p2p policy = add_p2p p2p (add_endpoints policy endpoints [])

abbrev add_reflexive : Option SocketAddr → CandidateSet → CandidateSet
add_reflexive none set = set
add_reflexive (some addr) set =
    add_candidate (candidate addr (if is_ipv6 addr then host_v6 else reflexive)) set

unfoldable pub gather_own_candidates : Option SocketAddr → Option Ipv4 → ℕ → CandidateSet
gather_own_candidates our_reflexive none port = add_reflexive our_reflexive []
gather_own_candidates our_reflexive (some v) port =
    let set = add_reflexive our_reflexive [] in
    if is_usable_lan_ipv4 v then add_candidate (candidate (sock4 v port) host_v4_lan) set else set
