-- ===== src/Tests/Traverse.antt =====
-- Traversal on a few addresses: a public one, a LAN one, and the relay sentinel.
use fgtw.Base.{
  ℕ, ◌≡◌, ◌≤◌, refl, ◌⊎◌, true, false, none, some, List, [], ◌∷◌, All, length, replicate,
  if◌then◌else◌,
}
use fgtw.Fleet.Fold.Trace.{Any}
use fgtw.Traverse.Address.{
  SocketAddr, sock4, eqb_v4, eqb_addr, is_multicast, is_unspecified, is_bogus_addr, is_private_ipv4,
  is_usable_lan_ipv4, peer_lan_reachable,
}
use fgtw.Traverse.Candidate.{
  host_v4_lan, reflexive, CandidateSet, candidate, priority_of, add_candidate, insert_candidate,
  sorted, find_other, pair_of, best_pair,
}
use fgtw.Traverse.Candidate.Pair.{IsBestPair, best_pair-IsBestPair}
use fgtw.Traverse.Candidate.Keep.{HasOnce, find_addr, better, add_candidate_lem}
use fgtw.Traverse.Gather.{
  LanPolicy, same_subnet_as, PeerEndpoint, gather_peer_candidates, add_p2p, add_endpoints,
  add_public, add_lan, admits, public_kind,
}
use fgtw.Traverse.Gather.Sources.{IsFrom, IsP2p, gather_peer_candidates-IsFrom}
use fgtw.Traverse.Reflexive.{max_pending}
use fgtw.Traverse.Reflexive.Votes.{Claim, after}
use fgtw.Traverse.Reflexive.Backing.{IsSound, record_claim-IsSound}
use fgtw.Traverse.Reflexive.Bounds.{record_claim-bounded}

abbrev public : SocketAddr
public = sock4 (record { a = 203; b = 0; c = 113; d = 7 }) 4383

abbrev lan : SocketAddr
lan = sock4 (record { a = 192; b = 168; c = 1; d = 2 }) 4383

abbrev foreign : SocketAddr
foreign = sock4 (record { a = 10; b = 0; c = 0; d = 5 }) 4383

abbrev sentinel : SocketAddr
sentinel = sock4 (record { a = 0; b = 0; c = 0; d = 0 }) 0

abbrev endpoints : List PeerEndpoint
endpoints =
    record { public = some public; lan = some lan }
    ∷ record { public = some sentinel; lan = some foreign }
    ∷ []

abbrev policy : LanPolicy
policy = same_subnet_as (some (record { a = 192; b = 168; c = 1; d = 9 }))

gathered :
    gather_peer_candidates endpoints none policy
    ≡ candidate public reflexive ∷ candidate lan host_v4_lan ∷ []
unfolding gather_peer_candidates add_p2p add_endpoints add_public add_lan admits public_kind
    is_bogus_addr is_unspecified is_multicast is_private_ipv4 is_usable_lan_ipv4 peer_lan_reachable
    add_candidate eqb_addr eqb_v4
gathered = refl

gather_peer_candidates-IsFrom_example :
    All
      (λ c. Any (IsFrom policy c) endpoints ⊎ IsP2p none c)
      (gather_peer_candidates endpoints none policy)
gather_peer_candidates-IsFrom_example = gather_peer_candidates-IsFrom endpoints none policy

abbrev known : CandidateSet
known = candidate public reflexive ∷ candidate lan host_v4_lan ∷ []

-- The LAN address is tried first.
lan_first : best_pair known ≡ some (lan, some public)
unfolding best_pair pair_of sorted insert_candidate find_other priority_of eqb_addr eqb_v4
lan_first = refl

best_pair-IsBestPair_example : IsBestPair known (best_pair known)
best_pair-IsBestPair_example = best_pair-IsBestPair known

known_once : HasOnce known
unfolding eqb_addr eqb_v4
known_once = (refl, (refl, tt))

add_candidate_lem_example :
    HasOnce (add_candidate (candidate lan reflexive) known)
    × (find_addr lan (add_candidate (candidate lan reflexive) known) ≡ (
        if eqb_addr lan lan
        then some (better (find_addr lan known) (candidate lan reflexive))
        else find_addr lan known))
add_candidate_lem_example = add_candidate_lem (candidate lan reflexive) known lan known_once

abbrev from_device : ℕ → SocketAddr → Claim
from_device n addr = record { observed = addr; source = replicate 32 n; trusted = false }

abbrev claims : List Claim
claims =
    from_device 2 public ∷ from_device 1 public ∷ from_device 1 public ∷ from_device 3 sentinel ∷ []

record_claim-IsSound_example :
    IsSound claims false (after claims).held4 × IsSound claims true (after claims).held6
record_claim-IsSound_example = record_claim-IsSound claims

record_claim-bounded_example : length (after claims).votes ≤ max_pending
record_claim-bounded_example = record_claim-bounded claims
