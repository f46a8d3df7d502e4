-- ===== src/Traverse/Candidate/Pair.antt =====
-- What the pair of src/traverse/candidate.rs `best_pair` is among the candidates.
use fgtw.Base.{
  ℕ, ◌≤◌, ◌≡◌, ◌≢◌, refl, ap, ◌⊎◌, inl, inr, Option, none, some, List, [], ◌∷◌, arith, All,
  Bool-cases,
}
use fgtw.Fleet.Fold.Trace.{Any}
use fgtw.Traverse.Address.{SocketAddr, eqb_addr, eqb_addr_iff}
use fgtw.Traverse.Candidate.{Candidate, CandidateSet, sorted, find_other, pair_of, best_pair}
use fgtw.Traverse.Candidate.Order.{IsDescending, sorted-All, sorted-Any, sorted-IsDescending}

-- `a` is the address of a candidate that none of those at other addresses than `b` outranks.
abbrev pub IsBestBut : Option SocketAddr → CandidateSet → SocketAddr → Type 0
IsBestBut but cs a =
    Any
      (λ (c : Candidate).
        (c.addr ≡ a) × All (λ (x : Candidate). (some x.addr ≡ but) ⊎ (x.priority ≤ c.priority)) cs)
      cs

-- The alternate is best of the candidates at other addresses, and is missing only if there are none.
abbrev pub IsAlternate : SocketAddr → CandidateSet → Option SocketAddr → Type 0
IsAlternate primary cs none = All (λ (x : Candidate). x.addr ≡ primary) cs
IsAlternate primary cs (some b) = (b ≢ primary) × IsBestBut (some primary) cs b

abbrev pub IsBestPair : CandidateSet → Option (SocketAddr × Option SocketAddr) → Type 0
IsBestPair cs none = cs ≡ []
IsBestPair cs (some (a, alt)) = IsBestBut none cs a × IsAlternate a cs alt

find_other-IsAlternate :
    (primary : SocketAddr) (xs : List Candidate)
    → IsDescending xs
    → IsAlternate primary xs (find_other primary xs)
unfolding find_other
find_other-IsAlternate primary [] h = tt
find_other-IsAlternate primary (x ∷ xs) (below, h) =
    let later = find_other-IsAlternate primary xs h in
    elim (Bool-cases (eqb_addr x.addr primary)) [
      | inr other ↦
          rw (other, find_other)
            (
              λ same. absurd (ground (arith, (eqb_addr_iff x.addr primary).1 same)),
              inl (refl, (inr (omega arith), All-right (some primary) x.priority xs below)),
            )
      | inl same ↦
          let here : x.addr ≡ primary = (eqb_addr_iff x.addr primary).0 same in
          rw (same, find_other) (skip primary x xs (find_other primary xs) here later)
    ]
  where
    All-right :
        (but : Option SocketAddr) (n : ℕ) (ys : List Candidate)
        → All (λ (y : Candidate). y.priority ≤ n) ys
        → All (λ (y : Candidate). (some y.addr ≡ but) ⊎ (y.priority ≤ n)) ys
    All-right but n [] k = tt
    All-right but n (y ∷ ys) k = (inr k.0, All-right but n ys k.1)

    Any-skip :
        (x : Candidate) (but : Option SocketAddr) (b : SocketAddr) (all ys : List Candidate)
        → some x.addr ≡ but
        → Any
            (λ (c : Candidate).
              (c.addr ≡ b)
              × All (λ (y : Candidate). (some y.addr ≡ but) ⊎ (y.priority ≤ c.priority)) all)
            ys
        → Any
            (λ (c : Candidate).
              (c.addr ≡ b)
              × All (λ (y : Candidate). (some y.addr ≡ but) ⊎ (y.priority ≤ c.priority)) (x ∷ all))
            ys
    Any-skip x but b all [] e k = k
    Any-skip x but b all (y ∷ ys) e (inl k) = inl (k.0, (inl e, k.1))
    Any-skip x but b all (y ∷ ys) e (inr k) = inr (Any-skip x but b all ys e k)

    skip :
        (primary : SocketAddr) (x : Candidate) (xs : List Candidate) (alt : Option SocketAddr)
        → x.addr ≡ primary
        → IsAlternate primary xs alt
        → IsAlternate primary (x ∷ xs) alt
    skip primary x xs none e k = (e, k)
    skip primary x xs (some b) e (differ, k) =
        (differ, inr (Any-skip x (some primary) b xs xs (ap some e) k))

-- A pair that is best of the sorted list is best of the set.
sorted-IsBestBut :
    (but : Option SocketAddr) (cs : CandidateSet) (a : SocketAddr)
    → IsBestBut but (sorted cs) a
    → IsBestBut but cs a
sorted-IsBestBut but cs a h = Any-weaken cs (sorted-Any _ cs h)
  where
    Any-weaken :
        (ys : List Candidate)
        → Any
            (λ (c : Candidate).
              (c.addr ≡ a)
              × All
                  (λ (x : Candidate). (some x.addr ≡ but) ⊎ (x.priority ≤ c.priority))
                  (sorted cs))
            ys
        → Any
            (λ (c : Candidate).
              (c.addr ≡ a)
              × All (λ (x : Candidate). (some x.addr ≡ but) ⊎ (x.priority ≤ c.priority)) cs)
            ys
    Any-weaken [] k = k
    Any-weaken (y ∷ ys) (inl k) = inl (k.0, sorted-All _ cs k.1)
    Any-weaken (y ∷ ys) (inr k) = inr (Any-weaken ys k)

pair_of-IsBestPair :
    (cs : CandidateSet) (xs : List Candidate)
    → sorted cs ≡ xs
    → IsDescending xs
    → IsBestPair cs (pair_of xs)
unfolding pair_of
pair_of-IsBestPair cs [] e h = none_left cs (sorted-All (λ c. ⊥) cs (rw e tt))
  where
    none_left : (ys : CandidateSet) → All (λ c. ⊥) ys → ys ≡ []
    none_left [] k = refl
    none_left (y ∷ ys) k = absurd k.0
pair_of-IsBestPair cs (x ∷ xs) e h = (
  sorted-IsBestBut none cs x.addr
      (rw e (inl (refl, (inr (omega arith), spread x.priority xs h.0)))),
  transfer (find_other x.addr (x ∷ xs)) (find_other-IsAlternate x.addr (x ∷ xs) h),
)
  where
    spread :
        (n : ℕ) (ys : List Candidate)
        → All (λ (y : Candidate). y.priority ≤ n) ys
        → All (λ (y : Candidate). (some y.addr ≡ none) ⊎ (y.priority ≤ n)) ys
    spread n [] k = tt
    spread n (y ∷ ys) k = (inr k.0, spread n ys k.1)

    transfer :
        (alt : Option SocketAddr) → IsAlternate x.addr (x ∷ xs) alt → IsAlternate x.addr cs alt
    transfer none k = sorted-All _ cs (rw e k)
    transfer (some b) (differ, k) = (differ, sorted-IsBestBut (some x.addr) cs b (rw e k))

-- The pair is missing only for the empty set. Its primary is the address of a candidate that no
-- candidate outranks. Its alternate is another address, of a candidate that none at an address other
-- than the primary outranks, and is missing only if every candidate is at the primary.
pub best_pair-IsBestPair : (cs : CandidateSet) → IsBestPair cs (best_pair cs)
unfolding best_pair
best_pair-IsBestPair cs = pair_of-IsBestPair cs (sorted cs) refl (sorted-IsDescending cs)
