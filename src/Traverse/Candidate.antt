-- ===== src/Traverse/Candidate.antt =====
-- src/traverse/candidate.rs: candidates, their priority, and the set that is kept of them.
use fgtw.Base.{
  ℕ, Bool, true, false, not, Option, none, some, List, [], ◌∷◌, leb, ltb, if◌then◌else◌,
}
use fgtw.Traverse.Address.{SocketAddr, is_ipv6, eqb_addr}
pub mod Order
pub mod Pair
pub mod Keep

pub data CandidateKind : Type 0 where
  host_v6 host_v4_lan host_v4_p2p reflexive : CandidateKind

pub record Candidate : Type 0 where
  pub addr : SocketAddr
  pub kind : CandidateKind
  pub priority : ℕ

unfoldable pub priority_of : CandidateKind → SocketAddr → ℕ
priority_of host_v6 addr = 100
priority_of host_v4_lan addr = 60
priority_of host_v4_p2p addr = 50
priority_of reflexive addr = if is_ipv6 addr then 80 else 40

-- `Candidate::new`
abbrev pub candidate : SocketAddr → CandidateKind → Candidate
candidate addr kind = record { addr = addr; kind = kind; priority = priority_of kind addr }

abbrev pub CandidateSet : Type 0
CandidateSet = List Candidate

-- `CandidateSet::add`
unfoldable pub add_candidate : Candidate → CandidateSet → CandidateSet
add_candidate c [] = c ∷ []
add_candidate c (e ∷ es) =
    let rest = add_candidate c es in
    if eqb_addr e.addr c.addr then (if ltb e.priority c.priority then c else e) ∷ es else e ∷ rest

-- `sort_by(|a, b| b.priority.cmp(&a.priority))`, which is stable.
unfoldable pub insert_candidate : Candidate → List Candidate → List Candidate
insert_candidate c [] = c ∷ []
insert_candidate c (x ∷ xs) =
    let rest = insert_candidate c xs in if leb x.priority c.priority then c ∷ x ∷ xs else x ∷ rest

unfoldable pub sorted : CandidateSet → List Candidate
sorted [] = []
sorted (c ∷ cs) = insert_candidate c (sorted cs)

-- `sorted.iter().map(|c| c.addr).find(|a| *a != primary)`
unfoldable pub find_other : SocketAddr → List Candidate → Option SocketAddr
find_other primary [] = none
find_other primary (c ∷ cs) =
    let rest = find_other primary cs in if eqb_addr c.addr primary then rest else some c.addr

unfoldable pub pair_of : List Candidate → Option (SocketAddr × Option SocketAddr)
pair_of [] = none
pair_of (c ∷ cs) = some (c.addr, find_other c.addr (c ∷ cs))

unfoldable pub best_pair : CandidateSet → Option (SocketAddr × Option SocketAddr)
best_pair cs = pair_of (sorted cs)
