-- ===== src/Traverse/Reflexive/Votes.antt =====
-- The pending votes of src/traverse/reflexive.rs: their voters are different devices that claimed.
use fgtw.Base.{
  ◌≡◌, sym, subst, inl, inr, Bool, false, List, [], ◌∷◌, ◌++◌, leb, length, drop, All, Bool-cases,
  if◌then◌else◌,
}
use fgtw.Base.Bytes.{Bytes}
use fgtw.Fleet.Members.{contains, Distinct, Distinct-append}
use fgtw.Fleet.Fold.Trace.{Any}
use fgtw.Traverse.Address.{SocketAddr, eqb_addr, eqb_addr_iff}
use fgtw.Traverse.Reflexive.{
  Vote, ReflexiveState, new, max_pending, is_pending, open_vote, cast, voters_of, drop_votes,
  record_claim,
}

-- One call of `record`.
pub record Claim : Type 0 where
  pub observed : SocketAddr
  pub source : Bytes
  pub trusted : Bool

-- The state after claims, the newest first.
abbrev pub after : List Claim → ReflexiveState
after [] = new
after (c ∷ older) = (record_claim c.observed c.source c.trusted (after older)).1

-- A device that is not trusted claimed the address.
abbrev pub Claimed : List Claim → SocketAddr → Bytes → Type 0
Claimed claims addr d =
    Any (λ (c : Claim). (c.observed ≡ addr) × (c.source ≡ d) × (c.trusted ≡ false)) claims

-- The voters of an entry are different devices that claimed it.
abbrev pub IsCast : List Claim → Vote → Type 0
IsCast claims v = Distinct v.voters × All (Claimed claims v.addr) v.voters

pub All-map :
    {A : Type 0} {P Q : A → Type 0} → ((a : A) → P a → Q a) → (xs : List A) → All P xs → All Q xs
All-map f [] h = tt
All-map f (x ∷ xs) h = (f x h.0, All-map f xs h.1)

All-append : {A : Type 0} (P : A → Type 0) (xs ys : List A) → All P xs → All P ys → All P (xs ++ ys)
All-append P [] ys h k = k
All-append P (x ∷ xs) ys h k = (h.0, All-append P xs ys h.1 k)

All-drop : {A : Type 0} (P : A → Type 0) (xs : List A) → All P xs → All P (drop 1 xs)
All-drop P [] h = tt
All-drop P (x ∷ xs) h = h.1

pub IsCast-cons :
    (c : Claim) (claims : List Claim) (v : Vote) → IsCast claims v → IsCast (c ∷ claims) v
IsCast-cons c claims v h = (h.0, All-map (λ d k. inr k) v.voters h.1)

pub open_vote-IsCast :
    (claims : List Claim) (addr : SocketAddr) (votes : List Vote)
    → All (IsCast claims) votes
    → All (IsCast claims) (open_vote addr votes)
unfolding open_vote
open_vote-IsCast claims addr votes h = elim (Bool-cases (is_pending addr votes)) [
  | inl there ↦ rw there h
  | inr new_one ↦
      let fresh : All (IsCast claims) (record { addr = addr; voters = [] } ∷ []) = ((tt, tt), tt) in
      elim (Bool-cases (leb max_pending (length votes))) [
        | inl full ↦
            rw (new_one, full)
              (All-append (IsCast claims) (drop 1 votes) _ (All-drop (IsCast claims) votes h) fresh)
        | inr room ↦ rw (new_one, room) (All-append (IsCast claims) votes _ h fresh)
      ]
]

add_voter :
    (claims : List Claim) (addr : SocketAddr) (d : Bytes) (v : Vote)
    → v.addr ≡ addr
    → Claimed claims addr d
    → IsCast claims v
    → IsCast claims (if contains v.voters d then v else record v { voters = v.voters ++ d ∷ [] })
add_voter claims addr d v e claimed h = elim (Bool-cases (contains v.voters d)) [
  | inl there ↦ rw there h
  | inr fresh ↦ rw fresh (
    Distinct-append v.voters d h.0 fresh,
    All-append (Claimed claims v.addr) v.voters (d ∷ []) h.1
        (subst (λ a. Claimed claims a d) (sym e) claimed, tt),
  )
]

pub cast-IsCast :
    (claims : List Claim) (addr : SocketAddr) (d : Bytes) (votes : List Vote)
    → Claimed claims addr d
    → All (IsCast claims) votes
    → All (IsCast claims) (cast addr d votes)
unfolding cast
cast-IsCast claims addr d [] claimed h = tt
cast-IsCast claims addr d (v ∷ vs) claimed h = elim (Bool-cases (eqb_addr v.addr addr)) [
  | inl same ↦
      rw same (add_voter claims addr d v ((eqb_addr_iff v.addr addr).0 same) claimed h.0, h.1)
  | inr other ↦ rw (other, cast) (h.0, cast-IsCast claims addr d vs claimed h.1)
]

pub voters_of-IsCast :
    (claims : List Claim) (addr : SocketAddr) (votes : List Vote)
    → All (IsCast claims) votes
    → Distinct (voters_of addr votes) × All (Claimed claims addr) (voters_of addr votes)
unfolding voters_of
voters_of-IsCast claims addr [] h = (tt, tt)
voters_of-IsCast claims addr (v ∷ vs) h = elim (Bool-cases (eqb_addr v.addr addr)) [
  | inl same ↦ rw same (
    h.0.0,
    subst (λ a. All (Claimed claims a) v.voters) ((eqb_addr_iff v.addr addr).0 same) h.0.1,
  )
  | inr other ↦ rw (other, voters_of) (voters_of-IsCast claims addr vs h.1)
]

pub drop_votes-IsCast :
    (claims : List Claim) (addr : SocketAddr) (votes : List Vote)
    → All (IsCast claims) votes
    → All (IsCast claims) (drop_votes addr votes)
unfolding drop_votes
drop_votes-IsCast claims addr [] h = tt
drop_votes-IsCast claims addr (v ∷ vs) h = elim (Bool-cases (eqb_addr v.addr addr)) [
  | inl same ↦ rw (same, drop_votes) (drop_votes-IsCast claims addr vs h.1)
  | inr other ↦ rw (other, drop_votes) (h.0, drop_votes-IsCast claims addr vs h.1)
]
