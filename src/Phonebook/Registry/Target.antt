-- ===== src/Phonebook/Registry/Target.antt =====
-- The device list that src/phonebook.rs `registry_plan` plans for.
use fgtw.Base.{
  ◌≡◌, refl, sym, subst, ◌∙◌, inl, inr, true, ◌||◌, List, [], ◌∷◌, ◌++◌, length, arith, Bool-cases,
}
use fgtw.Base.Bytes.{Bytes, eqb, eqb_iff, eqb_refl}
use fgtw.Fleet.Members.{contains, contains-append, Distinct, Distinct-append}
use fgtw.Phonebook.Registry.{settle, append_new, target}
use fgtw.Phonebook.Registry.Settle.{contains-settle, settle-Distinct, settle-same}

contains-append_new :
    (list ds : List Bytes) (t : Bytes)
    → contains (append_new list ds) t ≡ (contains list t || contains ds t)
unfolding append_new contains
contains-append_new list [] t = ground arith
contains-append_new list (d ∷ ds) t =
    let kept = contains-append_new list ds t in
    let pushed = contains-append_new (list ++ d ∷ []) ds t in
    elim (Bool-cases (contains list d)) [
      | inl had ↦
          let found : (eqb d t ≡ true) → contains list t ≡ true =
            λ e. subst (λ u. contains list u ≡ true) ((eqb_iff d t).0 e) had in
          rw had (ground (arith, kept, found))
      | inr new ↦ rw new (ground (arith, pushed, contains-append list d t))
    ]

append_new-Distinct : (list ds : List Bytes) → Distinct list → Distinct (append_new list ds)
unfolding append_new
append_new-Distinct list [] once = once
append_new-Distinct list (d ∷ ds) once = elim (Bool-cases (contains list d)) [
  | inl had ↦ rw had (append_new-Distinct list ds once)
  | inr new ↦ rw new (append_new-Distinct (list ++ d ∷ []) ds (Distinct-append list d once new))
]

append_new-same :
    (list ds : List Bytes)
    → ((t : Bytes) → contains ds t ≡ true → contains list t ≡ true)
    → append_new list ds ≡ list
unfolding append_new contains
append_new-same list [] all = refl
append_new-same list (d ∷ ds) all =
    let had : contains list d ≡ true = all d (ground (arith, eqb_refl d)) in
    rw had (append_new-same list ds (λ t h. all t (ground (arith, h))))

-- The list has the fold's members, and no others, whatever the registry had.
pub contains-target :
    (fold current : List Bytes) (t : Bytes) → contains (target fold current) t ≡ contains fold t
unfolding target
contains-target fold current t = ground (
  arith,
  contains-append_new (settle (length current) fold current) fold t,
  contains-settle (length current) fold current (omega arith) t,
)

pub target-Distinct :
    (fold current : List Bytes) → Distinct current → Distinct (target fold current)
unfolding target
target-Distinct fold current once =
    append_new-Distinct (settle (length current) fold current) fold
      (settle-Distinct (length current) fold current (omega arith) once)

-- A list that has the fold's members already is not changed.
pub target-same :
    (fold list : List Bytes)
    → ((t : Bytes) → contains list t ≡ contains fold t)
    → target fold list ≡ list
unfolding target
target-same fold list same =
    rw (settle-same (length list) fold list (λ t h. sym (same t) ∙ h))
      (append_new-same list fold (λ t h. same t ∙ h))
