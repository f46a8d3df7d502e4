-- ===== src/Traverse/Reflexive/Bounds.antt =====
-- How much is kept pending, and what a claim cannot displace (src/traverse/reflexive.rs).
use fgtw.Base.{◌≤◌, ◌≡◌, refl, Bool, List, [], ◌∷◌, arith, length, length-append}
use fgtw.Base.Bytes.{Bytes}
use fgtw.Traverse.Address.{SocketAddr}
use fgtw.Traverse.Reflexive.{
  Vote, ReflexiveState, max_pending, open_vote, cast, drop_votes, adopt, record_claim,
}
use fgtw.Traverse.Reflexive.Votes.{Claim, after}

length-cast :
    (addr : SocketAddr) (d : Bytes) (votes : List Vote) → length (cast addr d votes) ≡ length votes
unfolding cast
length-cast addr d [] = refl
length-cast addr d (v ∷ vs) = ground (arith, length-cast addr d vs)

length-open_vote :
    (addr : SocketAddr) (votes : List Vote)
    → length votes ≤ max_pending
    → length (open_vote addr votes) ≤ max_pending
unfolding open_vote
length-open_vote addr [] h = ground arith
length-open_vote addr (v ∷ vs) h =
    let fresh : Vote = record { addr = addr; voters = [] } in
    ground (arith, length-append vs (fresh ∷ []), length-append (v ∷ vs) (fresh ∷ []))

length-drop_votes :
    (addr : SocketAddr) (votes : List Vote) → length (drop_votes addr votes) ≤ length votes
unfolding drop_votes
length-drop_votes addr [] = omega arith
length-drop_votes addr (v ∷ vs) = ground (arith, length-drop_votes addr vs)

adopt-pending :
    (addr : SocketAddr) (s : ReflexiveState)
    → length s.votes ≤ max_pending
    → length (adopt addr s).1.votes ≤ max_pending
unfolding adopt
adopt-pending addr s h = ground (arith, length-drop_votes addr s.votes)

record_claim-pending :
    (addr : SocketAddr) (d : Bytes) (t : Bool) (s : ReflexiveState)
    → length s.votes ≤ max_pending
    → length (record_claim addr d t s).1.votes ≤ max_pending
unfolding record_claim
record_claim-pending addr d t s h =
    let votes = cast addr d (open_vote addr s.votes) in
    let bound : length votes ≤ max_pending =
      omega (arith, length-cast addr d (open_vote addr s.votes), length-open_vote addr s.votes h) in
    let counted = record s { votes = votes } in
    ground (arith, bound, adopt-pending addr s h, adopt-pending addr counted bound)

-- However many claims come, at most eight addresses are pending.
pub record_claim-bounded : (claims : List Claim) → length (after claims).votes ≤ max_pending
record_claim-bounded [] = omega arith
record_claim-bounded (c ∷ older) =
    record_claim-pending c.observed c.source c.trusted (after older) (record_claim-bounded older)
