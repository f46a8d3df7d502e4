-- ===== src/Traverse/Reflexive/Backing.antt =====
-- What a device's own address rests on, after any claims (src/traverse/reflexive.rs).
use fgtw.Base.{
  ◌≡◌, ◌≢◌, refl, ◌∙◌, ◌⊎◌, inl, inr, Bool, true, false, ◌&&◌, Option, none, some, List, [], ◌∷◌,
  arith, leb, length, All, Bool-cases,
}
use fgtw.Base.Bytes.{Bytes, eqb_refl}
use fgtw.Fleet.Members.{contains, Distinct}
use fgtw.Fleet.Fold.Trace.{Any}
use fgtw.Traverse.Address.{SocketAddr, is_ipv6, is_bogus_addr, is_lan_scope}
use fgtw.Traverse.Reflexive.{
  ReflexiveState, quorum, open_vote, cast, voters_of, holds_public, slot_is, slot_of, adopt,
  record_claim,
}
use fgtw.Traverse.Reflexive.Votes.{
  Claim, after, Claimed, IsCast, All-map, IsCast-cons, open_vote-IsCast, cast-IsCast,
  voters_of-IsCast, drop_votes-IsCast,
}

-- A trusted source claimed the address, or two different devices did.
abbrev pub IsBacked : List Claim → SocketAddr → Type 0
IsBacked claims addr =
    Any (λ (c : Claim). (c.observed ≡ addr) × (c.trusted ≡ true)) claims
    ⊎ ((d : Bytes) × (e : Bytes) × (d ≢ e) × Claimed claims addr d × Claimed claims addr e)

-- Two different voters are two different devices.
two_voters :
    (claims : List Claim) (addr : SocketAddr) (voters : List Bytes)
    → Distinct voters
    → All (Claimed claims addr) voters
    → leb quorum (length voters) ≡ true
    → IsBacked claims addr
unfolding contains
two_voters claims addr [] distinct claimed h = cc
two_voters claims addr (d ∷ []) distinct claimed h = cc
two_voters claims addr (d ∷ e ∷ vs) distinct claimed h =
    inr (d, e, λ same. ground (arith, eqb_refl d), claimed.0, claimed.1.0)

IsBacked-cons :
    (c : Claim) (claims : List Claim) (addr : SocketAddr)
    → IsBacked claims addr
    → IsBacked (c ∷ claims) addr
IsBacked-cons c claims addr (inl h) = inl (inr h)
IsBacked-cons c claims addr (inr (d, e, differ, h, k)) = inr (d, e, differ, inr h, inr k)

-- A held address is of the slot's family, can be reached, and is backed.
abbrev pub IsSound : List Claim → Bool → Option SocketAddr → Type 0
IsSound claims family none = Unit {0}
IsSound claims family (some a) =
    (is_ipv6 a ≡ family) × (is_bogus_addr a ≡ false) × IsBacked claims a

IsSound-cons :
    (c : Claim) (claims : List Claim) (family : Bool) (slot : Option SocketAddr)
    → IsSound claims family slot
    → IsSound (c ∷ claims) family slot
IsSound-cons c claims family none h = tt
IsSound-cons c claims family (some a) (f, b, k) = (f, b, IsBacked-cons c claims a k)

abbrev Holds : List Claim → ReflexiveState → Type 0
Holds claims s =
    IsSound claims false s.held4 × IsSound claims true s.held6 × All (IsCast claims) s.votes

adopt-Holds :
    (claims : List Claim) (addr : SocketAddr) (s : ReflexiveState)
    → is_bogus_addr addr ≡ false
    → IsBacked claims addr
    → Holds claims s
    → Holds claims (adopt addr s).1
unfolding adopt
adopt-Holds claims addr s real backed (h4, h6, hv) =
    elim (Bool-cases (is_lan_scope addr && holds_public (slot_of addr s))) [
      | inl weaker ↦ rw weaker (h4, h6, hv)
      | inr strong ↦ elim (Bool-cases (slot_is (slot_of addr s) addr)) [
        | inl same ↦ rw (strong, same) (h4, h6, hv)
        | inr changed ↦ elim (Bool-cases (is_ipv6 addr)) [
          | inl six ↦
              rw (strong, changed, six)
                (h4, (six, real, backed), drop_votes-IsCast claims addr s.votes hv)
          | inr four ↦
              rw (strong, changed, four)
                ((four, real, backed), h6, drop_votes-IsCast claims addr s.votes hv)
        ]
      ]
    ]

record_claim-Holds :
    (c : Claim) (claims : List Claim) (t : Bool) (s : ReflexiveState)
    → c.trusted ≡ t
    → Holds claims s
    → Holds (c ∷ claims) (record_claim c.observed c.source t s).1
unfolding record_claim
record_claim-Holds c claims t s is_t (h4, h6, hv) =
    let all = c ∷ claims in
    let kept : All (IsCast all) s.votes = All-map (IsCast-cons c claims) s.votes hv in
    let g4 = IsSound-cons c claims false s.held4 h4 in
    let g6 = IsSound-cons c claims true s.held6 h6 in
    elim (Bool-cases (is_bogus_addr c.observed)) [
      | inl bogus ↦ rw bogus (g4, g6, kept)
      | inr real ↦ elim (Bool-cases t) [
        | inl trusted ↦
            rw (real, trusted)
              (adopt-Holds all c.observed s real (inl (inl (refl, is_t ∙ trusted))) (g4, g6, kept))
        | inr untrusted ↦
            let opened = open_vote c.observed s.votes in
            let votes = cast c.observed c.source opened in
            let gv : All (IsCast all) votes =
              cast-IsCast all c.observed c.source opened (inl (refl, refl, is_t ∙ untrusted))
                (open_vote-IsCast all c.observed s.votes kept) in
            elim (Bool-cases (leb quorum (length (voters_of c.observed votes)))) [
              | inr short ↦ rw (real, untrusted, short) (g4, g6, gv)
              | inl enough ↦
                  let (distinct, claimed) = voters_of-IsCast all c.observed votes gv in
                  rw (real, untrusted, enough)
                    (adopt-Holds all c.observed (record s { votes = votes }) real
                      (two_voters all c.observed (voters_of c.observed votes) distinct claimed
                        enough)
                      (g4, g6, gv))
            ]
      ]
    ]

after-Holds : (claims : List Claim) → Holds claims (after claims)
after-Holds [] = (tt, tt, tt)
after-Holds (c ∷ older) =
    record_claim-Holds c older c.trusted (after older) refl (after-Holds older)

-- After any claims, an address that is held is of the slot's family, can be reached, and was
-- claimed by a trusted source or by two different devices: no one device that is not trusted,
-- however often it claims, brings an address in.
pub record_claim-IsSound :
    (claims : List Claim)
    → IsSound claims false (after claims).held4 × IsSound claims true (after claims).held6
record_claim-IsSound claims = let (h4, h6, hv) = after-Holds claims in (h4, h6)
