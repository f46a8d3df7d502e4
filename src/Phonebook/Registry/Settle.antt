-- ===== src/Phonebook/Registry/Settle.antt =====
-- The pop-and-swap loop of src/phonebook.rs `registry_plan` ends, with the devices of the fold that
-- the registry had.
use fgtw.Base.{
  ℕ, zero, suc, ◌≤◌, ◌≡◌, refl, sym, ap, subst, inl, inr, true, false, ◌&&◌, none, some, List, [],
  ◌∷◌, ◌++◌, length, length-append, last, arith, Bool-cases, Option-cases,
}
use fgtw.Base.Bytes.{Bytes, eqb, eqb_iff, eqb_refl}
use fgtw.Fleet.Members.{contains, contains-append, Distinct}
use fgtw.Phonebook.Registry.{but_last, swap_pop, settle}

but_last-last : (xs : List Bytes) (l : Bytes) → last xs ≡ some l → but_last xs ++ l ∷ [] ≡ xs
unfolding but_last
but_last-last [] l e = cc
but_last-last (x ∷ []) l e = let same : x ≡ l = cc in ap (λ y. y ∷ []) (sym same)
but_last-last (x ∷ y ∷ xs) l e = ap (◌∷◌ x) (but_last-last (y ∷ xs) l e)

last-none : (xs : List Bytes) → last xs ≡ none → xs ≡ []
last-none [] e = refl
last-none (x ∷ []) e = cc
last-none (x ∷ y ∷ xs) e = absurd (ground (arith, last-none (y ∷ xs) e))

-- A list whose last stands first has the same devices, each once if each was there once.
abbrev SameDevices : List Bytes → List Bytes → Type 0
SameDevices xs ys =
    (length xs ≡ length ys)
    × ((t : Bytes) → contains xs t ≡ contains ys t)
    × (Distinct ys → Distinct xs)

Distinct-snoc :
    (xs : List Bytes) (l : Bytes) → Distinct (xs ++ l ∷ []) → (contains xs l ≡ false) × Distinct xs
unfolding contains
Distinct-snoc [] l h = (refl, tt)
Distinct-snoc (x ∷ xs) l h =
    let (fresh, rest) = Distinct-snoc xs l h.1 in
    (
      ground (arith, h.0, contains-append xs l x, fresh, eqb_iff x l, eqb_iff l x),
      (ground (arith, h.0, contains-append xs l x), rest),
    )

moved-contains : (xs : List Bytes) (l t : Bytes) → contains (l ∷ xs) t ≡ contains (xs ++ l ∷ []) t
unfolding contains
moved-contains xs l t = ground (arith, contains-append xs l t)

swap_pop-SameDevices : (xs : List Bytes) → SameDevices (swap_pop xs) xs
unfolding swap_pop
swap_pop-SameDevices xs = elim (Option-cases (last xs)) [
  | inl e ↦ let nothing = last-none xs e in rw (e, swap_pop, nothing) (refl, λ t. refl, λ h. h)
  | inr (l, e) ↦
      let whole = but_last-last xs l e in
      let front = but_last xs in
      rw (e, swap_pop)
        (subst (SameDevices (l ∷ front)) whole (
          omega (arith, length-append front (l ∷ [])),
          λ t. moved-contains front l t,
          λ h. Distinct-snoc front l h,
        ))
]

-- Fuel for every device of the list is enough: what is left are the list's devices that the fold
-- has.
pub contains-settle :
    (fuel : ℕ) (fold list : List Bytes)
    → length list ≤ fuel
    → (t : Bytes) → contains (settle fuel fold list) t ≡ (contains list t && contains fold t)
unfolding settle contains
contains-settle zero fold [] enough t = refl
contains-settle zero fold (d ∷ rest) enough t = absurd (omega (arith, enough))
contains-settle (suc fuel) fold [] enough t = refl
contains-settle (suc fuel) fold (d ∷ rest) enough t =
    let (size, same, once) = swap_pop-SameDevices rest in
    let kept = contains-settle fuel fold rest (omega (arith, enough)) t in
    let moved = contains-settle fuel fold (swap_pop rest) (omega (arith, enough, size)) t in
    elim (Bool-cases (contains fold d)) [
      | inl member ↦
          let found : (eqb d t ≡ true) → contains fold t ≡ true =
            λ e. subst (λ u. contains fold u ≡ true) ((eqb_iff d t).0 e) member in
          rw member (ground (arith, kept, found))
      | inr gone ↦
          let absent : (eqb d t ≡ true) → contains fold t ≡ false =
            λ e. subst (λ u. contains fold u ≡ false) ((eqb_iff d t).0 e) gone in
          rw gone (ground (arith, moved, same t, absent))
    ]

pub settle-Distinct :
    (fuel : ℕ) (fold list : List Bytes)
    → length list ≤ fuel
    → Distinct list
    → Distinct (settle fuel fold list)
unfolding settle contains
settle-Distinct zero fold list enough once = once
settle-Distinct (suc fuel) fold [] enough once = tt
settle-Distinct (suc fuel) fold (d ∷ rest) enough once =
    let (size, same, keep) = swap_pop-SameDevices rest in
    let fits : length rest ≤ fuel = omega (arith, enough) in
    elim (Bool-cases (contains fold d)) [
      | inl member ↦
          let fresh : contains (settle fuel fold rest) d ≡ false =
            ground (arith, contains-settle fuel fold rest fits d, once.0) in
          rw member (fresh, settle-Distinct fuel fold rest fits once.1)
      | inr gone ↦
          rw gone
            (settle-Distinct fuel fold (swap_pop rest) (omega (arith, fits, size)) (keep once.1))
    ]

-- Where the fold has every device, nothing moves.
pub settle-same :
    (fuel : ℕ) (fold list : List Bytes)
    → ((t : Bytes) → contains list t ≡ true → contains fold t ≡ true)
    → settle fuel fold list ≡ list
unfolding settle contains
settle-same zero fold list all = refl
settle-same (suc fuel) fold [] all = refl
settle-same (suc fuel) fold (d ∷ rest) all =
    let member : contains fold d ≡ true = all d (ground (arith, eqb_refl d)) in
    rw member (ap (◌∷◌ d) (settle-same fuel fold rest (λ t h. all t (ground (arith, h)))))
