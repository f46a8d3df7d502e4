-- ===== src/Phonebook/Eggs.antt =====
-- src/phonebook.rs: egg blobs, the lists of signatures that records point at.
use fgtw.Base.{
  ℕ, zero, suc, ◌+◌, ◌*◌, Option, none, some, List, [], ◌∷◌, ◌++◌, ◌==◌, ltb, take, drop, length,
  if◌then◌else◌,
}
use fgtw.Base.Bytes.{Bytes, le_bytes}
use fgtw.Base.Text.{codes}
use fgtw.Primitives.{Primitives, Egg}
use fgtw.Pq.Bundle.{is_empty}

-- `EGGS_BLOB_MAX`
abbrev pub eggs_blob_max : ℕ
eggs_blob_max = 32 * 1024

module _ (p : Primitives) where
  unfoldable pub list_bytes : List Egg → Bytes
  list_bytes [] = []
  list_bytes (e ∷ es) = p.eggs_to_bytes (e ∷ es)

  -- The length is cast to a u16.
  unfoldable pub eggs_blob : List (List Egg) → Bytes
  unfolding list_bytes
  eggs_blob [] = []
  eggs_blob (l ∷ ls) =
      let bytes = list_bytes l in le_bytes 2 (length bytes) ++ (bytes ++ eggs_blob ls)

  -- `if len == 0 { Vec::new() } else { eggs_from_bytes(bytes).ok()? }`
  unfoldable pub list_of : ℕ → Bytes → Option (List Egg)
  list_of n bytes = if n == 0 then some [] else p.eggs_from_bytes bytes

  abbrev pub push_list : Option (List Egg) → Option (List (List Egg)) → Option (List (List Egg))
  push_list none ls = none
  push_list (some l) none = none
  push_list (some l) (some ls) = some (l ∷ ls)

  -- The loop of `eggs_blob_lists`, and its check of trailing bytes.
  unfoldable pub eggs_blob_lists : Bytes → ℕ → Option (List (List Egg))
  unfolding list_of
  eggs_blob_lists rest zero = if is_empty rest then some [] else none
  eggs_blob_lists (lo ∷ hi ∷ rest) (suc n) =
      let len = lo + 256 * hi in
      let later = eggs_blob_lists (drop len rest) n in
      if ltb (length rest) len then none else push_list (list_of len (take len rest)) later
  eggs_blob_lists _ (suc n) = none

  unfoldable pub eggs_ptr : Bytes → Bytes
  eggs_ptr blob = p.derive_key (codes "PHOTON_PB_EGGS_v1") blob
