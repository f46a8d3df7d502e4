-- ===== src/Traverse/Candidate/Keep.antt =====
-- What src/traverse/candidate.rs `add` keeps.
use fgtw.Base.{
  ◌≡◌, ◌∙◌, sym, ap, refl, inl, inr, Bool-cases, true, Option, none, some, [], ◌∷◌, arith, ltb,
  if◌then◌else◌,
}
use fgtw.Traverse.Address.{SocketAddr, eqb_addr, eqb_addr_iff}
use fgtw.Traverse.Candidate.{Candidate, CandidateSet, add_candidate}

-- The candidate that a set keeps for an address.
abbrev pub find_addr : SocketAddr → CandidateSet → Option Candidate
find_addr a [] = none
find_addr a (c ∷ cs) = if eqb_addr c.addr a then some c else find_addr a cs

-- No address stands twice.
abbrev pub HasOnce : CandidateSet → Type 0
HasOnce [] = Unit {0}
HasOnce (c ∷ cs) = (find_addr c.addr cs ≡ none) × HasOnce cs

-- The better of a kept candidate and a new one; the kept one where they are equal.
abbrev pub better : Option Candidate → Candidate → Candidate
better none c = c
better (some e) c = if ltb e.priority c.priority then c else e

find_addr-same :
    (a b : SocketAddr) (cs : CandidateSet) → eqb_addr a b ≡ true → find_addr a cs ≡ find_addr b cs
find_addr-same a b cs h = ap (λ x. find_addr x cs) ((eqb_addr_iff a b).0 h)

find_addr-add :
    (c : Candidate) (cs : CandidateSet) (a : SocketAddr)
    → find_addr a (add_candidate c cs)
      ≡ (if eqb_addr c.addr a then some (better (find_addr c.addr cs) c) else find_addr a cs)
unfolding add_candidate
find_addr-add c [] a = ground arith
find_addr-add c (e ∷ es) a =
    let rest = find_addr-add c es a in
    let x = eqb_addr_iff e.addr c.addr in
    let y = eqb_addr_iff c.addr a in let z = eqb_addr_iff e.addr a in ground (arith, rest, x, y, z)

add-HasOnce : (c : Candidate) (cs : CandidateSet) → HasOnce cs → HasOnce (add_candidate c cs)
unfolding add_candidate
add-HasOnce c [] h = (refl, tt)
add-HasOnce c (e ∷ es) h = elim (Bool-cases (eqb_addr e.addr c.addr)) [
  | inl same ↦ elim (Bool-cases (ltb e.priority c.priority)) [
    | inl worse ↦ rw (same, worse) (sym (find_addr-same e.addr c.addr es same) ∙ h.0, h.1)
    | inr kept ↦ rw (same, kept) h
  ]
  | inr other ↦
      let x = eqb_addr_iff e.addr c.addr in
      let y = eqb_addr_iff c.addr e.addr in
      rw (other, add_candidate)
        (ground (arith, find_addr-add c es e.addr, h.0, x, y), add-HasOnce c es h.1)
]

-- Adding a candidate keeps every address once, leaves the candidates of the other addresses as
-- they are, and keeps for its own address the better of what was kept and what came, the former
-- where the two are equal.
pub add_candidate_lem :
    (c : Candidate) (cs : CandidateSet) (a : SocketAddr)
    → HasOnce cs
    → HasOnce (add_candidate c cs)
      × (find_addr a (add_candidate c cs)
          ≡ (if eqb_addr c.addr a then some (better (find_addr c.addr cs) c) else find_addr a cs))
add_candidate_lem c cs a h = (add-HasOnce c cs h, find_addr-add c cs a)
