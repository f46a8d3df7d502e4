-- ===== src/Fstate/Survivor.antt =====
-- Which entry survives for each key in src/fstate.rs `merge_by_key`.
use fgtw.Base.{
  ◌≡◌, refl, sym, ap, subst, ◌∙◌, inl, inr, Bool, true, false, Option, none, some, List, [], ◌∷◌,
  ◌++◌, arith, All, Bool-cases, if◌then◌else◌,
}
use fgtw.Base.Bytes.{Bytes, eqb, eqb_iff, eqb_refl}
use fgtw.Base.ByteOrder.{leb_bytes, leb_bytes_total, leb_bytes_antisym, leb_bytes_trans}
use fgtw.Fstate.Merge.{insert_by, sort_by, newest, squash, dedup_by, merge_by_key}

module _ {T : Type 0} (key : T → Bytes) where
  abbrev pub find_by_key : Bytes → List T → Option T
  find_by_key k [] = none
  find_by_key k (x ∷ xs) = if eqb (key x) k then some x else find_by_key k xs

module _ {T : Type 0} (key : T → Bytes) (newer : T → T → Bool) where
  abbrev pub insert_newer : Option T → T → T
  insert_newer none x = x
  insert_newer (some held) x = newest key newer held x

  -- The one pass: a copy under the key replaces the held one only if it is newer.
  abbrev pub one_pass : Bytes → Option T → List T → Option T
  one_pass k held [] = held
  one_pass k held (x ∷ xs) =
      if eqb (key x) k then one_pass k (some (insert_newer held x)) xs else one_pass k held xs

  eqb_trans : (a b c : Bytes) → eqb a c ≡ true → eqb b c ≡ true → eqb a b ≡ true
  eqb_trans a b c h k =
      let e : a ≡ c = (eqb_iff a c).0 h in
      let f : b ≡ c = (eqb_iff b c).0 k in (eqb_iff a b).1 (e ∙ sym f)

  pub leb_refl : (a b : Bytes) → eqb a b ≡ true → leb_bytes a b ≡ true
  leb_refl a b h = elim (Bool-cases (leb_bytes a b)) [
    | inl e ↦ e
    | inr e ↦
        let same = (eqb_iff a b).0 h in
        let back = leb_bytes_total a b e in
        absurd (ground (arith, ap (λ x. leb_bytes x b) same, ap (λ x. leb_bytes b x) same, e, back))
  ]

  -- Moving an entry to its place in the order passes no entry of the same key.
  one_pass-insert :
      (k : Bytes) (held : Option T) (x : T) (xs : List T)
      → one_pass k held (insert_by key newer x xs) ≡ one_pass k held (x ∷ xs)
  unfolding insert_by
  one_pass-insert k held x [] = refl
  one_pass-insert k held x (y ∷ ys) = elim (Bool-cases (leb_bytes (key x) (key y))) [
    | inl before ↦ rw before refl
    | inr behind ↦
        rw (behind, insert_by)
          (elim (Bool-cases (eqb (key y) k)) [
            | inr other ↦ rw (other, one_pass-insert k held x ys) refl
            | inl mine ↦ elim (Bool-cases (eqb (key x) k)) [
              | inr other ↦
                  rw (mine, one_pass-insert k (some (insert_newer held y)) x ys, other) refl
              | inl both ↦ absurd (
                  ground (
                    arith,
                    leb_refl (key x) (key y) (eqb_trans (key x) (key y) k both mine),
                    behind,
                  ))
            ]
          ])
  ]

  one_pass-sort :
      (k : Bytes) (held : Option T) (xs : List T)
      → one_pass k held (sort_by key newer xs) ≡ one_pass k held xs
  unfolding sort_by
  one_pass-sort k held [] = refl
  one_pass-sort k held (x ∷ xs) =
      one_pass-insert k held x (sort_by key newer xs) ∙ (elim (Bool-cases (eqb (key x) k)) [
        | inl mine ↦ rw (one_pass, mine) (one_pass-sort k (some (insert_newer held x)) xs)
        | inr other ↦ rw (one_pass, other) (one_pass-sort k held xs)
      ])

  abbrev pub IsAscending : List T → Type 0
  IsAscending [] = Unit {0}
  IsAscending (x ∷ xs) = All (λ y. leb_bytes (key x) (key y) ≡ true) xs × IsAscending xs

  All-insert :
      (P : T → Type 0) (x : T) (xs : List T) → P x → All P xs → All P (insert_by key newer x xs)
  unfolding insert_by
  All-insert P x [] h k = (h, tt)
  All-insert P x (y ∷ ys) h k = elim (Bool-cases (leb_bytes (key x) (key y))) [
    | inl before ↦ rw before (h, k)
    | inr behind ↦ rw (behind, insert_by) (k.0, All-insert P x ys h k.1)
  ]

  All-above :
      (a b : Bytes) (xs : List T)
      → leb_bytes a b ≡ true
      → All (λ y. leb_bytes b (key y) ≡ true) xs
      → All (λ y. leb_bytes a (key y) ≡ true) xs
  All-above a b [] h k = tt
  All-above a b (x ∷ xs) h k = (leb_bytes_trans a b (key x) h k.0, All-above a b xs h k.1)

  insert_by-IsAscending :
      (x : T) (xs : List T) → IsAscending xs → IsAscending (insert_by key newer x xs)
  unfolding insert_by
  insert_by-IsAscending x [] h = (tt, tt)
  insert_by-IsAscending x (y ∷ ys) h = elim (Bool-cases (leb_bytes (key x) (key y))) [
    | inl before ↦ rw before ((before, All-above (key x) (key y) ys before h.0), h)
    | inr behind ↦
        rw (behind, insert_by)
          (
            All-insert (λ z. leb_bytes (key y) (key z) ≡ true) x ys
                (leb_bytes_total (key x) (key y) behind) h.0,
            insert_by-IsAscending x ys h.1,
          )
  ]

  pub sort_by-IsAscending : (xs : List T) → IsAscending (sort_by key newer xs)
  unfolding sort_by
  sort_by-IsAscending [] = tt
  sort_by-IsAscending (x ∷ xs) =
      insert_by-IsAscending x (sort_by key newer xs) (sort_by-IsAscending xs)

  -- Behind a greater key there is no copy of a smaller one.
  one_pass-behind :
      (k : Bytes) (held : Option T) (j : Bytes) (xs : List T)
      → leb_bytes k j ≡ true
      → eqb j k ≡ false
      → All (λ y. leb_bytes j (key y) ≡ true) xs
      → one_pass k held xs ≡ held
  one_pass-behind k held j [] below differ h = refl
  one_pass-behind k held j (x ∷ xs) below differ h = elim (Bool-cases (eqb (key x) k)) [
    | inr other ↦ rw (one_pass, other) (one_pass-behind k held j xs below differ h.1)
    | inl mine ↦
        let same : leb_bytes j k ≡ true =
          ap (leb_bytes j) (sym ((eqb_iff (key x) k).0 mine)) ∙ h.0 in
        absurd (ground (arith, leb_bytes_antisym j k same below, differ))
  ]

  pub newest-key :
      (held x : T) → eqb (key x) (key held) ≡ true → key (newest key newer held x) ≡ key held
  newest-key held x h = elim (Bool-cases (newer x held)) [
    | inl later ↦ rw later ((eqb_iff (key x) (key held)).0 h)
    | inr kept ↦ rw kept refl
  ]

  squash-find :
      (k : Bytes) (held : T) (xs : List T)
      → IsAscending (held ∷ xs)
      → find_by_key key k (squash key newer held xs) ≡ one_pass k none (held ∷ xs)
  unfolding squash
  squash-find k held [] h = refl
  squash-find k held (x ∷ xs) ((above, above_held), (above_x, h)) =
      elim (Bool-cases (eqb (key x) (key held))) [
        | inl same ↦
            let kept = newest-key held x same in
            let step =
              squash-find k (newest key newer held x) xs
                (subst (λ j. All (λ y. leb_bytes j (key y) ≡ true) xs) (sym kept) above_held, h) in
            elim (Bool-cases (eqb (key held) k)) [
              | inl mine ↦
                  let x_mine : eqb (key x) k ≡ true =
                    ap (λ j. eqb j k) ((eqb_iff (key x) (key held)).0 same) ∙ mine in
                  rw (squash, same, mine, x_mine) (step ∙ rw (one_pass, kept, mine) refl)
              | inr other ↦
                  let x_other : eqb (key x) k ≡ false =
                    ap (λ j. eqb j k) ((eqb_iff (key x) (key held)).0 same) ∙ other in
                  rw (squash, same, other, x_other) (step ∙ rw (one_pass, kept, other) refl)
            ]
        | inr differ ↦
            let step = squash-find k x xs (above_x, h) in
            elim (Bool-cases (eqb (key held) k)) [
              | inr other ↦ rw (squash, differ, other) step
              | inl mine ↦
                  let is_k = (eqb_iff (key held) k).0 mine in
                  rw (squash, differ, mine)
                    (sym (
                      one_pass-behind k (some held) (key x) (x ∷ xs)
                        (subst (λ j. leb_bytes j (key x) ≡ true) is_k above)
                        (subst (λ j. eqb (key x) j ≡ false) is_k differ)
                        (leb_refl (key x) (key x) (eqb_refl (key x)), above_x)))
            ]
      ]

  dedup_by-find :
      (k : Bytes) (xs : List T)
      → IsAscending xs
      → find_by_key key k (dedup_by key newer xs) ≡ one_pass k none xs
  unfolding dedup_by
  dedup_by-find k [] h = refl
  dedup_by-find k (x ∷ xs) h = squash-find k x xs h

  -- For every key a merge holds what one pass over the first list and then the second would hold,
  -- where a later copy replaces the held one only if it is newer; and nothing for a key that
  -- neither has.
  pub merge_by_key-one_pass :
      (k : Bytes) (a b : List T)
      → find_by_key key k (merge_by_key key newer a b) ≡ one_pass k none (a ++ b)
  unfolding merge_by_key
  merge_by_key-one_pass k a b =
      dedup_by-find k (sort_by key newer (a ++ b)) (sort_by-IsAscending (a ++ b))
      ∙ one_pass-sort k none (a ++ b)
