-- ===== src/Traverse/Gather/Sources.antt =====
-- Where the candidates that src/traverse/gather.rs gathers come from.
use fgtw.Base.{
  ℕ, ◌≡◌, refl, ◌⊎◌, inl, inr, true, false, Option, none, some, List, [], ◌∷◌, ltb, All, Bool-cases,
}
use fgtw.Fleet.Fold.Trace.{Any}
use fgtw.Traverse.Address.{
  Ipv4, SocketAddr, sock4, sock6, is_ipv6, eqb_addr, is_bogus_addr, is_private_ipv4,
}
use fgtw.Traverse.Candidate.{
  host_v6, host_v4_lan, host_v4_p2p, reflexive, Candidate, candidate, CandidateSet, add_candidate,
}
use fgtw.Traverse.Gather.{
  public_kind, LanPolicy, admits, PeerEndpoint, add_lan, add_public, add_endpoints, add_p2p,
  gather_peer_candidates,
}

-- What an endpoint may have given: a LAN candidate is a v4 address that the policy admits; a
-- public one can be reached, and is a v6 host or a v4 address that is not private.
abbrev pub IsFrom : LanPolicy → Candidate → PeerEndpoint → Type 0
IsFrom policy c ep =
    ((v : Ipv4) × (port : ℕ) × (c ≡ candidate (sock4 v port) host_v4_lan)
      × (admits policy v ≡ true)
      × ((ep.public ≡ some (sock4 v port)) ⊎ (ep.lan ≡ some (sock4 v port))))
    ⊎ (((v : Ipv4) × (port : ℕ) × (c ≡ candidate (sock4 v port) reflexive)
          × (is_private_ipv4 v ≡ false)
          × (is_bogus_addr c.addr ≡ false)
          × (ep.public ≡ some c.addr))
        ⊎ ((is_ipv6 c.addr ≡ true)
            × (c ≡ candidate c.addr host_v6)
            × (is_bogus_addr c.addr ≡ false)
            × (ep.public ≡ some c.addr)))

abbrev pub IsP2p : Option SocketAddr → Candidate → Type 0
IsP2p p2p c =
    (c ≡ candidate c.addr host_v4_p2p) × (is_bogus_addr c.addr ≡ false) × (p2p ≡ some c.addr)

module _ (P : Candidate → Type 0) where
  add-All : (c : Candidate) (cs : CandidateSet) → P c → All P cs → All P (add_candidate c cs)
  unfolding add_candidate
  add-All c [] h k = (h, tt)
  add-All c (e ∷ es) h k = elim (Bool-cases (eqb_addr e.addr c.addr)) [
    | inr other ↦ rw (other, add_candidate) (k.0, add-All c es h k.1)
    | inl same ↦ elim (Bool-cases (ltb e.priority c.priority)) [
      | inl worse ↦ rw (same, worse) (h, k.1)
      | inr kept ↦ rw (same, kept) k
    ]
  ]

  add_lan-All :
      (policy : LanPolicy) (public lan : Option SocketAddr) (set : CandidateSet)
      → ((c : Candidate) → IsFrom policy c (record { public = public; lan = lan }) → P c)
      → All P set
      → All P (add_lan policy lan set)
  unfolding add_lan
  add_lan-All policy public none set f h = h
  add_lan-All policy public (some (sock6 v port flow scope)) set f h = h
  add_lan-All policy public (some (sock4 v port)) set f h = elim (Bool-cases (admits policy v)) [
    | inr refused ↦ rw refused h
    | inl allowed ↦ rw allowed (add-All _ set (f _ (inl (v, port, refl, allowed, inr refl))) h)
  ]

  add_public-All :
      (policy : LanPolicy) (public lan : Option SocketAddr) (set : CandidateSet)
      → ((c : Candidate) → IsFrom policy c (record { public = public; lan = lan }) → P c)
      → All P set
      → All P (add_public policy public set)
  unfolding add_public public_kind
  add_public-All policy none lan set f h = h
  add_public-All policy (some (sock6 v port flow scope)) lan set f h =
      elim (Bool-cases (is_bogus_addr (sock6 v port flow scope))) [
        | inl bogus ↦ rw bogus h
        | inr real ↦ rw real (add-All _ set (f _ (inr (inr (refl, refl, real, refl)))) h)
      ]
  add_public-All policy (some (sock4 v port)) lan set f h =
      elim (Bool-cases (is_bogus_addr (sock4 v port))) [
        | inl bogus ↦ rw bogus h
        | inr real ↦ elim (Bool-cases (is_private_ipv4 v)) [
          | inr public ↦
              rw (real, public)
                (add-All _ set (f _ (inr (inl (v, port, refl, public, real, refl)))) h)
          | inl private ↦ elim (Bool-cases (admits policy v)) [
            | inr refused ↦ rw (real, private, refused) h
            | inl allowed ↦
                rw (real, private, allowed)
                  (add-All _ set (f _ (inl (v, port, refl, allowed, inl refl))) h)
          ]
        ]
      ]

  add_endpoints-All :
      (policy : LanPolicy) (eps : List PeerEndpoint) (set : CandidateSet)
      → All (λ ep. (c : Candidate) → IsFrom policy c ep → P c) eps
      → All P set
      → All P (add_endpoints policy eps set)
  unfolding add_endpoints
  add_endpoints-All policy [] set f h = h
  add_endpoints-All policy (ep ∷ eps) set (f, g) h =
      add_endpoints-All policy eps _ g
        (add_lan-All policy ep.public ep.lan _ f (add_public-All policy ep.public ep.lan set f h))

-- Each endpoint accounts for what it gives.
each-IsFrom :
    (policy : LanPolicy) (P : Candidate → Type 0) (eps : List PeerEndpoint)
    → ((c : Candidate) → Any (IsFrom policy c) eps → P c)
    → All (λ ep. (c : Candidate) → IsFrom policy c ep → P c) eps
each-IsFrom policy P [] f = tt
each-IsFrom policy P (ep ∷ eps) f =
    (λ c h. f c (inl h), each-IsFrom policy P eps (λ c h. f c (inr h)))

-- Every candidate that is gathered for a peer comes from one of its endpoints or is the Wi-Fi
-- Direct address: a LAN candidate is admitted by the policy, a public one can be reached and is
-- never a private v4 address, and a Wi-Fi Direct one can be reached.
pub gather_peer_candidates-IsFrom :
    (eps : List PeerEndpoint) (p2p : Option SocketAddr) (policy : LanPolicy)
    → All (λ c. Any (IsFrom policy c) eps ⊎ IsP2p p2p c) (gather_peer_candidates eps p2p policy)
unfolding gather_peer_candidates add_p2p
gather_peer_candidates-IsFrom eps none policy =
    add_endpoints-All _ policy eps [] (each-IsFrom policy _ eps (λ c h. inl h)) tt
gather_peer_candidates-IsFrom eps (some addr) policy =
    let before =
      add_endpoints-All (λ c. Any (IsFrom policy c) eps ⊎ IsP2p (some addr) c) policy eps []
        (each-IsFrom policy _ eps (λ c h. inl h)) tt in
    elim (Bool-cases (is_bogus_addr addr)) [
      | inl bogus ↦ rw bogus before
      | inr real ↦ rw real (add-All _ _ _ (inr (refl, real, refl)) before)
    ]
