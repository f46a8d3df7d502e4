-- ===== src/Phonebook/Registry/Dense.antt =====
-- What a registry view that passes src/phonebook.rs `verify_with` is: a dense run of the identity's
-- pointers behind its count.
use fgtw.Base.{
  ℕ, suc, ◌≡◌, refl, sym, ap, ◌∙◌, inl, inr, Bool, true, false, ◌&&◌, Option, none, some, List, [],
  ◌∷◌, length, ==_iff, arith, Option-cases, Bool-cases, get_elem?, ltb, not, ◌||◌,
}
use fgtw.Base.Bytes.{Bytes, eqb, eqb_iff}
use fgtw.Primitives.{Primitives, Egg}
use fgtw.Pq.Scheme.{Mask}
use fgtw.Pq.Bundle.{KeyBundle, is_empty}
use fgtw.Pq.Eggs.{verify_eggs_declared}
use fgtw.Phonebook.Mint.{placement_signing_bytes, count_signing_bytes, departure_signing_bytes}
use fgtw.Phonebook.Eggs.{eggs_blob_max, eggs_blob_lists, eggs_ptr}
use fgtw.Phonebook.Keys.{key_identity, key_pointer}
use fgtw.Phonebook.Layout.{rd32, ic_handle, dp_handle}
use fgtw.Phonebook.Record.{
  Record, identity_count, device_pointer, kind, key, handle_proof, index, count, epoch, witness,
  departing, placer, record_eggs_ptr,
}
use fgtw.Phonebook.Pointers.{handle_proof-pointer, key-pointer}
use fgtw.Phonebook.Counts.{handle_proof-count, key-count}
use fgtw.Phonebook.Verify.{
  EggPolicy, judge, list_verdict, verify_list, is_pointer, is_count, verify_placement_with,
  verify_count_with, verify_departure_with,
}
use fgtw.Phonebook.Registry.{RegistryView, blob_of, verify_extent, verify_pointers, verify_with}

-- The blob is the one that the record points at, and the eggs of its list `idx` of `n` pass, over
-- `msg`, what the policy asks of the signer.
abbrev pub IsListed : (p : Primitives) → EggPolicy → Record → Bytes → ℕ → ℕ → Bytes → Bytes → Type 0
IsListed p policy r blob idx n signer msg =
    (eggs_ptr p blob ≡ record_eggs_ptr r)
    × ((lists : List (List Egg)) × (eggs : List Egg) × (eggs_blob_lists p blob n ≡ some lists)
        × (get_elem? lists idx ≡ some eggs)
        × (verify_eggs_declared p eggs (judge p policy signer).0 msg (judge p policy signer).1
            ≡ true))

-- The count's record names no leaver, or its blob's second list is that device's departure consent.
abbrev pub IsConsented : (p : Primitives) → EggPolicy → Record → Bytes → Option Bytes → Type 0
IsConsented p policy c blob none = Unit
IsConsented p policy c blob (some dev) =
    IsListed p policy c blob 1 2 dev (departure_signing_bytes (handle_proof c) dev (epoch c))

-- Each pointer stands at the identity's key for its place, and its placer's eggs pass the policy. The
-- count stands at the identity's key, and its witness's eggs pass.
module _ (p : Primitives) (view : RegistryView) (hp : Bytes) (policy : EggPolicy) where
  abbrev pub IsPlacedAt : ℕ → Record → Type 0
  IsPlacedAt i r =
      (key p r ≡ some (key_pointer p hp i))
      × ((blob : Bytes) × (blob_of view r ≡ some blob)
          × IsListed p policy r blob 0 1 (placer r) (placement_signing_bytes r))

  abbrev pub IsDense : ℕ → List Record → Type 0
  IsDense i [] = Unit {0}
  IsDense i (r ∷ rs) = IsPlacedAt i r × IsDense (suc i) rs

  abbrev pub IsAttested : Option Record → Type 0
  IsAttested none = view.pointers ≡ []
  IsAttested (some c) =
      (key p c ≡ some (key_identity p hp))
      × (count c ≡ length view.pointers)
      × ((blob : Bytes) × (blob_of view c ≡ some blob)
          × IsListed p policy c blob 0 2 (witness c) (count_signing_bytes c)
          × IsConsented p policy c blob (departing c))

and-true : (a b : Bool) → (a && b) ≡ true → (a ≡ true) × (b ≡ true)
and-true true b e = (refl, e)
and-true false b e = cc

is_empty-nil : (rs : List Record) → is_empty rs ≡ true → rs ≡ []
is_empty-nil [] e = refl
is_empty-nil (r ∷ rs) e = cc

kind-is_pointer : (r : Record) → is_pointer r ≡ true → kind r ≡ device_pointer
unfolding is_pointer
kind-is_pointer r e = ground (arith, e)

kind-is_count : (r : Record) → is_count r ≡ true → kind r ≡ identity_count
unfolding is_count
kind-is_count r e = ground (arith, e)

list_verdict-passes :
    (p : Primitives) (o : Option (List (List Egg))) (idx : ℕ) (bundle : KeyBundle) (required : Mask)
    (msg : Bytes)
    → list_verdict p o idx (bundle, required) msg ≡ true
    → (lists : List (List Egg)) × (eggs : List Egg) × (o ≡ some lists)
      × (get_elem? lists idx ≡ some eggs)
      × (verify_eggs_declared p eggs bundle msg required ≡ true)
unfolding list_verdict
list_verdict-passes p none idx bundle required msg e = cc
list_verdict-passes p (some lists) idx bundle required msg e =
    elim (Option-cases (get_elem? lists idx)) [
      | inl missing ↦ absurd (ground (arith, e, missing))
      | inr (eggs, there) ↦ (lists, eggs, refl, there, rw (there, list_verdict) at e)
    ]

verify_list-IsListed :
    (p : Primitives) (policy : EggPolicy) (r : Record) (blob : Bytes) (idx n : ℕ)
    (signer msg : Bytes)
    → verify_list p r blob idx n signer msg policy ≡ true
    → IsListed p policy r blob idx n signer msg
unfolding verify_list
verify_list-IsListed p policy r blob idx n signer msg e =
    elim (Bool-cases
      (ltb eggs_blob_max (length blob) || not (eqb (eggs_ptr p blob) (record_eggs_ptr r)))) [
        | inl refused ↦ absurd (ground (arith, e, refused))
        | inr passed ↦
            let (lists, eggs, read, there, good) =
              list_verdict-passes p (eggs_blob_lists p blob n) idx (judge p policy signer).0
                (judge p policy signer).1 msg (rw passed at e) in
            (
              (eqb_iff (eggs_ptr p blob) (record_eggs_ptr r)).0 (ground (arith, passed)),
              (lists, eggs, read, there, good),
            )
      ]

placement-IsListed :
    (p : Primitives) (r : Record) (blob : Bytes) (policy : EggPolicy)
    → verify_placement_with p r blob policy ≡ true
    → (kind r ≡ device_pointer)
      × IsListed p policy r blob 0 1 (placer r) (placement_signing_bytes r)
unfolding verify_placement_with
placement-IsListed p r blob policy e =
    let (here, listed) = and-true (is_pointer r) _ e in
    (kind-is_pointer r here, verify_list-IsListed p policy r blob 0 1 _ _ listed)

count-IsListed :
    (p : Primitives) (r : Record) (blob : Bytes) (policy : EggPolicy)
    → verify_count_with p r blob policy ≡ true
    → (kind r ≡ identity_count) × IsListed p policy r blob 0 2 (witness r) (count_signing_bytes r)
unfolding verify_count_with
count-IsListed p r blob policy e =
    let (here, listed) = and-true (is_count r) _ e in
    (kind-is_count r here, verify_list-IsListed p policy r blob 0 2 _ _ listed)

departure-IsConsented :
    (p : Primitives) (r : Record) (blob : Bytes) (policy : EggPolicy) (leaver : Option Bytes)
    → departing r ≡ leaver
    → verify_departure_with p r blob policy ≡ true
    → IsConsented p policy r blob leaver
unfolding verify_departure_with
departure-IsConsented p r blob policy none is_leaver e = tt
departure-IsConsented p r blob policy (some dev) is_leaver e = elim (Bool-cases (is_count r)) [
  | inl here ↦
      verify_list-IsListed p policy r blob 1 2 dev _
        (rw (here, is_leaver, verify_departure_with) at e)
  | inr other ↦ absurd (ground (arith, e, other))
]

module _ (p : Primitives) (view : RegistryView) (hp : Bytes) (policy : EggPolicy) where
  pointers-IsDense :
      (i : ℕ) (rs : List Record)
      → verify_pointers p view hp policy i rs ≡ true
      → IsDense p view hp policy i rs
  unfolding verify_pointers
  pointers-IsDense i [] e = tt
  pointers-IsDense i (r ∷ rs) e = elim (Option-cases (blob_of view r)) [
    | inl missing ↦ absurd (ground (arith, e, missing))
    | inr (blob, held) ↦
        let passed = rw (held, verify_pointers) at e in
        let (placed, then₁) = and-true _ _ passed in
        let (handle, then₂) = and-true _ _ then₁ in
        let (place, later) = and-true _ _ then₂ in
        let (k, listed) = placement-IsListed p r blob policy placed in
        let handle' : rd32 r.bytes dp_handle ≡ hp =
          sym (handle_proof-pointer r k) ∙ (eqb_iff (handle_proof r) hp).0 handle in
        (
          (
            key-pointer r k p
                ∙ (ap (λ h. some (key_pointer p h (index r))) handle'
                    ∙ ap (λ n. some (key_pointer p hp n)) ((==_iff (index r) i).0 place)),
            (blob, held, listed),
          ),
          pointers-IsDense (suc i) rs later,
        )
  ]

  extent-IsAttested :
      (c? : Option Record)
      → verify_extent p view hp policy c? ≡ true
      → IsAttested p view hp policy c?
  unfolding verify_extent
  extent-IsAttested none e = is_empty-nil view.pointers e
  extent-IsAttested (some c) e = elim (Option-cases (blob_of view c)) [
    | inl missing ↦ absurd (ground (arith, e, missing))
    | inr (blob, held) ↦
        let passed = rw (held, verify_extent) at e in
        let (counted, then₁) = and-true _ _ passed in
        let (left, then₂) = and-true _ _ then₁ in
        let (handle, size) = and-true _ _ then₂ in
        let (k, listed) = count-IsListed p c blob policy counted in
        let handle' : rd32 c.bytes ic_handle ≡ hp =
          sym (handle_proof-count c k) ∙ (eqb_iff (handle_proof c) hp).0 handle in
        (
          key-count c k p ∙ ap (λ h. some (key_identity p h)) handle',
          (==_iff (count c) (length view.pointers)).0 size,
          (blob, held, listed, departure-IsConsented p c blob policy (departing c) refl left),
        )
  ]

  -- A view that passes under a reader's policy stands at the identity's keys. Its count, where there
  -- is one, is at the identity's own and equal to the number of pointers, and its witness's eggs pass
  -- the policy; where it names a leaver, that device's consent passes too. The pointer of index i is at
  -- the key of i, and its placer's eggs pass. Without a count there is no pointer.
  pub verify_with-IsDense :
      verify_with p view hp policy ≡ true
      → IsAttested p view hp policy view.count_record × IsDense p view hp policy 0 view.pointers
  unfolding verify_with
  verify_with-IsDense e =
      let (extent, run) = and-true _ _ e in
      (extent-IsAttested view.count_record extent, pointers-IsDense 0 view.pointers run)
