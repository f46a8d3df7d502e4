-- ===== src/Traverse/Candidate/Order.antt =====
-- The sorted list of src/traverse/candidate.rs: it has the set's candidates, best first.
use fgtw.Base.{ℕ, ◌≤◌, ◌⊎◌, inl, inr, List, [], ◌∷◌, arith, leb, All, Bool-cases}
use fgtw.Fleet.Fold.Trace.{Any}
use fgtw.Traverse.Candidate.{Candidate, CandidateSet, insert_candidate, sorted}

insert-All :
    (P : Candidate → Type 0) (c : Candidate) (xs : List Candidate)
    → All P (insert_candidate c xs)
    → P c × All P xs
unfolding insert_candidate
insert-All P c [] h = h
insert-All P c (x ∷ xs) h = elim (Bool-cases (leb x.priority c.priority)) [
  | inl before ↦ rw before at h
  | inr behind ↦
      let (here, later) = rw (behind, insert_candidate) at h in
      let (mine, rest) = insert-All P c xs later in (mine, (here, rest))
]

All-insert :
    (P : Candidate → Type 0) (c : Candidate) (xs : List Candidate)
    → P c
    → All P xs
    → All P (insert_candidate c xs)
unfolding insert_candidate
All-insert P c [] h k = (h, k)
All-insert P c (x ∷ xs) h k = elim (Bool-cases (leb x.priority c.priority)) [
  | inl before ↦ rw before (h, k)
  | inr behind ↦ rw (behind, insert_candidate) (k.0, All-insert P c xs h k.1)
]

insert-Any :
    (P : Candidate → Type 0) (c : Candidate) (xs : List Candidate)
    → Any P (insert_candidate c xs)
    → P c ⊎ Any P xs
unfolding insert_candidate
insert-Any P c [] h = h
insert-Any P c (x ∷ xs) h = elim (Bool-cases (leb x.priority c.priority)) [
  | inl before ↦ rw before at h
  | inr behind ↦ elim (rw (behind, insert_candidate) at h) [
    | inl here ↦ inr (inl here)
    | inr later ↦ elim (insert-Any P c xs later) [ inl mine ↦ inl mine | inr rest ↦ inr (inr rest) ]
  ]
]

pub sorted-All : (P : Candidate → Type 0) (cs : CandidateSet) → All P (sorted cs) → All P cs
unfolding sorted
sorted-All P [] h = tt
sorted-All P (c ∷ cs) h =
    let (here, later) = insert-All P c (sorted cs) h in (here, sorted-All P cs later)

pub sorted-Any : (P : Candidate → Type 0) (cs : CandidateSet) → Any P (sorted cs) → Any P cs
unfolding sorted
sorted-Any P [] h = h
sorted-Any P (c ∷ cs) h = elim (insert-Any P c (sorted cs) h) [
  | inl here ↦ inl here
  | inr later ↦ inr (sorted-Any P cs later)
]

-- No candidate comes before a better one.
abbrev pub IsDescending : List Candidate → Type 0
IsDescending [] = Unit {0}
IsDescending (c ∷ cs) = All (λ (x : Candidate). x.priority ≤ c.priority) cs × IsDescending cs

All-below :
    (m n : ℕ) (xs : List Candidate)
    → m ≤ n
    → All (λ (x : Candidate). x.priority ≤ m) xs
    → All (λ (x : Candidate). x.priority ≤ n) xs
All-below m n [] h k = tt
All-below m n (x ∷ xs) h k = (omega (arith, h, k.0), All-below m n xs h k.1)

insert-IsDescending :
    (c : Candidate) (xs : List Candidate) → IsDescending xs → IsDescending (insert_candidate c xs)
unfolding insert_candidate
insert-IsDescending c [] h = (tt, tt)
insert-IsDescending c (x ∷ xs) h = elim (Bool-cases (leb x.priority c.priority)) [
  | inl before ↦
      let less : x.priority ≤ c.priority = ground arith in
      rw before ((less, All-below x.priority c.priority xs less h.0), h)
  | inr behind ↦
      let less : c.priority ≤ x.priority = ground arith in
      rw (behind, insert_candidate)
        (
          All-insert (λ (y : Candidate). y.priority ≤ x.priority) c xs less h.0,
          insert-IsDescending c xs h.1,
        )
]

pub sorted-IsDescending : (cs : CandidateSet) → IsDescending (sorted cs)
unfolding sorted
sorted-IsDescending [] = tt
sorted-IsDescending (c ∷ cs) = insert-IsDescending c (sorted cs) (sorted-IsDescending cs)
