-- ===== src/Fleet/Members.antt =====
-- The lists that the fold of src/fleet.rs keeps: device keys, and slots keyed by a device key.
use fgtw.Base.{
  ◌≡◌, refl, Bool, false, ◌||◌, Option, none, some, List, [], ◌∷◌, ◌++◌, arith, if◌then◌else◌,
}
use fgtw.Base.Bytes.{Bytes, eqb, eqb_iff}

-- `members.contains(&d)`
unfoldable pub contains : List Bytes → Bytes → Bool
contains [] d = false
contains (m ∷ ms) d = eqb m d || contains ms d

-- `members.retain(|m| m != &d)`
unfoldable pub retain_ne : Bytes → List Bytes → List Bytes
retain_ne d [] = []
retain_ne d (m ∷ ms) = let rest = retain_ne d ms in if eqb m d then rest else m ∷ rest

-- A slot list, `Vec<([u8; 32], V)>`.
pub record Slot {ℓ} (V : Type ℓ) : Type ℓ where
  pub device : Bytes
  pub value : V

module _ {ℓ} {V : Type ℓ} where
  -- `iter().find(|(d, _)| *d == device).map(|(_, v)| v)`
  unfoldable pub find_slot : Bytes → List (Slot V) → Option V
  find_slot d [] = none
  find_slot d (s ∷ ss) = if eqb s.device d then some s.value else find_slot d ss

  -- `match iter_mut().find(..) { Some(slot) => slot.1 = v, None => push((d, v)) }`
  unfoldable pub put_slot : Bytes → V → List (Slot V) → List (Slot V)
  put_slot d v [] = record { device = d; value = v } ∷ []
  put_slot d v (s ∷ ss) =
      if eqb s.device d then record { device = s.device; value = v } ∷ ss else s ∷ put_slot d v ss

  -- `push((d, v))`
  abbrev pub push_slot : Bytes → V → List (Slot V) → List (Slot V)
  push_slot d v ss = ss ++ record { device = d; value = v } ∷ []

  pub find_slot-put_slot :
      (d j : Bytes) (v : V) (ss : List (Slot V))
      → find_slot j (put_slot d v ss) ≡ (if eqb d j then some v else find_slot j ss)
  unfolding find_slot put_slot
  find_slot-put_slot d j v [] = refl
  find_slot-put_slot d j v (s ∷ ss) =
      ground
        (arith, eqb_iff s.device d, eqb_iff s.device j, eqb_iff d j, find_slot-put_slot d j v ss)

  -- A pushed slot is found only where there was none: an older slot of the device comes first.
  pub find_slot-push_slot :
      (d j : Bytes) (v : V) (ss : List (Slot V))
      → find_slot j (push_slot d v ss)
        ≡ elim (find_slot j ss) [ some w ↦ some w | none ↦ (if eqb d j then some v else none) ]
  unfolding find_slot
  find_slot-push_slot d j v [] = refl
  find_slot-push_slot d j v (s ∷ ss) = ground (arith, find_slot-push_slot d j v ss)

pub contains-append :
    (ms : List Bytes) (a d : Bytes) → contains (ms ++ a ∷ []) d ≡ (contains ms d || eqb a d)
unfolding contains
contains-append [] a d = ground arith
contains-append (m ∷ ms) a d = ground (arith, contains-append ms a d)

pub contains-retain_ne :
    (d j : Bytes) (ms : List Bytes)
    → contains (retain_ne d ms) j ≡ (if eqb d j then false else contains ms j)
unfolding contains retain_ne
contains-retain_ne d j [] = ground arith
contains-retain_ne d j (m ∷ ms) =
    ground (arith, eqb_iff m d, eqb_iff m j, eqb_iff d j, contains-retain_ne d j ms)

-- No key stands twice in the list.
abbrev pub Distinct : List Bytes → Type 0
Distinct [] = Unit {0}
Distinct (m ∷ ms) = (contains ms m ≡ false) × Distinct ms

pub Distinct-append :
    (ms : List Bytes) (a : Bytes) → Distinct ms → contains ms a ≡ false → Distinct (ms ++ a ∷ [])
unfolding contains
Distinct-append [] a h n = (refl, tt)
Distinct-append (m ∷ ms) a h n = (
  ground (arith, contains-append ms a m, eqb_iff m a, eqb_iff a m),
  Distinct-append ms a h.1 (ground arith),
)

pub Distinct-retain_ne : (d : Bytes) (ms : List Bytes) → Distinct ms → Distinct (retain_ne d ms)
unfolding retain_ne
Distinct-retain_ne d [] h = h
Distinct-retain_ne d (m ∷ ms) h =
    ground (arith, contains-retain_ne d m ms, Distinct-retain_ne d ms h.1)
