-- ===== src/Fstate/Newest.antt =====
-- What survives a merge of src/fstate.rs: the newest copy, and a deletion where stamps are equal.
use fgtw.Base.{
  ◌≡◌, refl, sym, subst, inl, inr, Bool, true, false, not, ◌||◌, ◌&&◌, Option, none, some, List, [],
  ◌∷◌, ◌++◌, arith, All, Bool-cases,
}
use fgtw.Base.Bytes.{Bytes, eqb}
use fgtw.Base.Int.{ℤ, ltb_ℤ, eqb_ℤ}
use fgtw.Fstate.Merge.{newest, merge_by_key}
use fgtw.Fstate.Survivor.{find_by_key, insert_newer, one_pass, merge_by_key-one_pass}
use fgtw.Fstate.Roster.{
  RosterEntry, outranks, newer_entry, merge_rosters, SettingEntry, newer_setting,
  merge_global_settings,
}

-- One copy gives way to another: it is older, or as old and not a deletion that the other is not.
abbrev pub gives_way : ℤ → Bool → ℤ → Bool → Bool
gives_way updated tombstone by by_tombstone =
    ltb_ℤ updated by || (eqb_ℤ updated by && (not tombstone || by_tombstone))

module _ {T : Type 0} (yields : T → T → Bool) where
  -- There is a survivor, and the copy gives way to it.
  abbrev pub outlasts : Option T → T → Bool
  outlasts none x = false
  outlasts (some e) x = yields x e

module _ {T : Type 0} (key : T → Bytes) (newer : T → T → Bool) (yields : T → T → Bool) where
  module _ (yields_refl : (x : T) → yields x x ≡ true)
      (yields_trans : (x y z : T) → yields x y ≡ true → yields y z ≡ true → yields x z ≡ true)
      (newer-yields : (x y : T) → newer x y ≡ true → yields y x ≡ true)
      (kept-yields : (x y : T) → newer x y ≡ false → yields x y ≡ true) where
    newest-both :
        (held x : T)
        → (yields held (newest key newer held x) ≡ true)
          × (yields x (newest key newer held x) ≡ true)
    newest-both held x = elim (Bool-cases (newer x held)) [
      | inl later ↦ rw later (newer-yields x held later, yields_refl x)
      | inr kept ↦ rw kept (yields_refl held, kept-yields x held kept)
    ]

    one_pass-held :
        (k : Bytes) (held : T) (xs : List T) (y : T)
        → yields y held ≡ true
        → outlasts yields (one_pass key newer k (some held) xs) y ≡ true
    one_pass-held k held [] y h = h
    one_pass-held k held (x ∷ xs) y h = elim (Bool-cases (eqb (key x) k)) [
      | inr other ↦ rw (one_pass, other) (one_pass-held k held xs y h)
      | inl mine ↦
          rw (one_pass, mine)
            (one_pass-held k (newest key newer held x) xs y
              (yields_trans y held (newest key newer held x) h (newest-both held x).0))
    ]

    insert-yields : (held : Option T) (x : T) → yields x (insert_newer key newer held x) ≡ true
    insert-yields none x = yields_refl x
    insert-yields (some held) x = (newest-both held x).1

    one_pass-outlasts :
        (k : Bytes) (held : Option T) (xs : List T)
        → All
            (λ x. (not (eqb (key x) k) || outlasts yields (one_pass key newer k held xs) x) ≡ true)
            xs
    one_pass-outlasts k held [] = tt
    one_pass-outlasts k held (x ∷ xs) = elim (Bool-cases (eqb (key x) k)) [
      | inr other ↦
          let now : one_pass key newer k held (x ∷ xs) ≡ one_pass key newer k held xs =
            rw (one_pass, other) refl in
          subst (λ r. All (λ y. (not (eqb (key y) k) || outlasts yields r y) ≡ true) (x ∷ xs))
            (sym now) (rw other refl, one_pass-outlasts k held xs)
      | inl mine ↦
          let next = insert_newer key newer held x in
          let now : one_pass key newer k held (x ∷ xs) ≡ one_pass key newer k (some next) xs =
            rw (one_pass, mine) refl in
          subst (λ r. All (λ y. (not (eqb (key y) k) || outlasts yields r y) ≡ true) (x ∷ xs))
            (sym now)
            (
              rw mine (one_pass-held k next xs x (insert-yields held x)),
              one_pass-outlasts k (some next) xs,
            )
    ]

    pub merge_by_key-outlasts :
        (k : Bytes) (a b : List T)
        → All
            (λ x.
              (not (eqb (key x) k)
                || outlasts yields (find_by_key key k (merge_by_key key newer a b)) x)
              ≡ true)
            (a ++ b)
    merge_by_key-outlasts k a b =
        subst (λ r. All (λ x. (not (eqb (key x) k) || outlasts yields r x) ≡ true) (a ++ b))
          (sym (merge_by_key-one_pass key newer k a b)) (one_pass-outlasts k none (a ++ b))

abbrev pub entry_yields : RosterEntry → RosterEntry → Bool
entry_yields x y = gives_way x.updated x.tombstone y.updated y.tombstone

-- For every handle that either roster has, the merge has an entry, and every copy of it in either
-- gives way to that entry: none is stamped later, and none stamped alike is a deletion where the
-- entry is not.
pub merge_rosters-newest :
    (k : Bytes) (a b : List RosterEntry)
    → All
        (λ (x : RosterEntry).
          (not (eqb x.handle_proof k)
            || outlasts entry_yields
                (find_by_key (λ (e : RosterEntry). e.handle_proof) k (merge_rosters a b))
                x)
          ≡ true)
        (a ++ b)
unfolding merge_rosters
merge_rosters-newest k a b =
    merge_by_key-outlasts (λ (e : RosterEntry). e.handle_proof) newer_entry entry_yields
      (λ x. ground arith) (λ x y z h k. ground arith)
      (λ x y h. unfold newer_entry outranks in ground arith)
      (λ x y h. unfold newer_entry outranks in ground arith) k a b

module _ {V : Type 0} where
  abbrev pub setting_yields : SettingEntry V → SettingEntry V → Bool
  setting_yields x y = gives_way x.updated x.tombstone y.updated y.tombstone

module _ {V : Type 0} (flatten : V → Bytes) where
  -- For every key that either copy of the global settings has, the merge has a setting, and every
  -- copy of it in either gives way to that setting: none is stamped later, and none stamped alike
  -- is a deletion where the setting is not.
  pub merge_global_settings-newest :
      (k : Bytes) (a b : List (SettingEntry V))
      → All
          (λ (x : SettingEntry V).
            (not (eqb x.key k)
              || outlasts setting_yields
                  (find_by_key
                    (λ (e : SettingEntry V). e.key)
                    k
                    (merge_global_settings flatten a b))
                  x)
            ≡ true)
          (a ++ b)
  unfolding merge_global_settings
  merge_global_settings-newest k a b =
      merge_by_key-outlasts (λ (e : SettingEntry V). e.key) (newer_setting flatten) setting_yields
        (λ x. ground arith) (λ x y z h k. ground arith)
        (λ x y h. unfold newer_setting outranks in ground arith)
        (λ x y h. unfold newer_setting outranks in ground arith) k a b
