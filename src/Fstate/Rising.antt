-- ===== src/Fstate/Rising.antt =====
-- The order of what src/fstate.rs `merge_by_key` gives.
use fgtw.Base.{
  ◌≡◌, sym, subst, inl, inr, Bool, true, false, List, [], ◌∷◌, ◌++◌, arith, All, Bool-cases,
}
use fgtw.Base.Bytes.{Bytes, eqb, eqb_iff}
use fgtw.Base.ByteOrder.{leb_bytes, leb_bytes_antisym}
use fgtw.Fstate.Merge.{sort_by, newest, squash, dedup_by, merge_by_key}
use fgtw.Fstate.Survivor.{IsAscending, newest-key, sort_by-IsAscending}

-- A key that comes after `j` and is another.
abbrev pub Beyond : Bytes → Bytes → Type 0
Beyond j k = (leb_bytes j k ≡ true) × (eqb k j ≡ false)

module _ {T : Type 0} (key : T → Bytes) where
  abbrev pub IsRising : List T → Type 0
  IsRising [] = Unit {0}
  IsRising (x ∷ xs) = All (λ y. Beyond (key x) (key y)) xs × IsRising xs

module _ {T : Type 0} (key : T → Bytes) (newer : T → T → Bool) where
  squash-All :
      (P : Bytes → Type 0) (held : T) (xs : List T)
      → P (key held)
      → All (λ y. P (key y)) xs
      → All (λ y. P (key y)) (squash key newer held xs)
  unfolding squash
  squash-All P held [] h k = (h, tt)
  squash-All P held (x ∷ xs) h (hx, k) = elim (Bool-cases (eqb (key x) (key held))) [
    | inl same ↦
        rw (squash, same)
          (squash-All P (newest key newer held x) xs
            (subst P (sym (newest-key key newer held x same)) h) k)
    | inr differ ↦ rw (squash, differ) (h, squash-All P x xs hx k)
  ]

  far :
      (a b : Bytes) (xs : List T)
      → Beyond a b
      → All (λ y. leb_bytes a (key y) ≡ true) xs
      → All (λ y. leb_bytes b (key y) ≡ true) xs
      → All (λ y. Beyond a (key y)) xs
  far a b [] beyond h k = tt
  far a b (x ∷ xs) (below, differ) h k = (
    (
      h.0,
      elim (Bool-cases (eqb (key x) a)) [
        | inr other ↦ other
        | inl same ↦
            let back : leb_bytes b a ≡ true =
              subst (λ c. leb_bytes b c ≡ true) ((eqb_iff (key x) a).0 same) k.0 in
            absurd (ground (arith, leb_bytes_antisym b a back below, differ))
      ],
    ),
    far a b xs (below, differ) h.1 k.1,
  )

  squash-IsRising :
      (held : T) (xs : List T)
      → IsAscending key newer (held ∷ xs)
      → IsRising key (squash key newer held xs)
  unfolding squash
  squash-IsRising held [] h = (tt, tt)
  squash-IsRising held (x ∷ xs) ((above, above_held), (above_x, h)) =
      elim (Bool-cases (eqb (key x) (key held))) [
        | inl same ↦
            rw (squash, same)
              (squash-IsRising (newest key newer held x) xs (
                subst (λ j. All (λ y. leb_bytes j (key y) ≡ true) xs)
                    (sym (newest-key key newer held x same)) above_held,
                h,
              ))
        | inr differ ↦
            rw (squash, differ)
              (
                squash-All (Beyond (key held)) x xs (above, differ)
                    (far (key held) (key x) xs (above, differ) above_held above_x),
                squash-IsRising x xs (above_x, h),
              )
      ]

  dedup_by-IsRising :
      (xs : List T) → IsAscending key newer xs → IsRising key (dedup_by key newer xs)
  unfolding dedup_by
  dedup_by-IsRising [] h = tt
  dedup_by-IsRising (x ∷ xs) h = squash-IsRising x xs h

  -- A merge is in strictly rising order of keys: every key stands once.
  pub merge_by_key-IsRising : (a b : List T) → IsRising key (merge_by_key key newer a b)
  unfolding merge_by_key
  merge_by_key-IsRising a b =
      dedup_by-IsRising (sort_by key newer (a ++ b)) (sort_by-IsAscending key newer (a ++ b))
