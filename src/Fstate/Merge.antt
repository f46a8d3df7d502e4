-- ===== src/Fstate/Merge.antt =====
-- src/fstate.rs `merge_by_key`. Each caller's `cmp` compares the bytes of one field, the `key`.
use fgtw.Base.{Bool, List, [], ◌∷◌, ◌++◌, if◌then◌else◌}
use fgtw.Base.Bytes.{Bytes, eqb}
use fgtw.Base.ByteOrder.{leb_bytes}

module _ {T : Type 0} (key : T → Bytes) (newer : T → T → Bool) where
  -- `out.sort_by(&cmp)`, which is stable.
  unfoldable pub insert_by : T → List T → List T
  insert_by x [] = x ∷ []
  insert_by x (y ∷ ys) =
      let rest = insert_by x ys in if leb_bytes (key x) (key y) then x ∷ y ∷ ys else y ∷ rest

  unfoldable pub sort_by : List T → List T
  sort_by [] = []
  sort_by (x ∷ xs) = insert_by x (sort_by xs)

  -- `if newer(later, held) { swap(later, held) }`
  abbrev pub newest : T → T → T
  newest held later = if newer later held then later else held

  -- `out.dedup_by(..)` behind the element that is held.
  unfoldable pub squash : T → List T → List T
  squash held [] = held ∷ []
  squash held (x ∷ xs) =
      let same = squash (newest held x) xs in
      let other = squash x xs in if eqb (key x) (key held) then same else held ∷ other

  unfoldable pub dedup_by : List T → List T
  unfolding squash
  dedup_by [] = []
  dedup_by (x ∷ xs) = squash x xs

  unfoldable pub merge_by_key : List T → List T → List T
  merge_by_key a b = dedup_by (sort_by (a ++ b))
