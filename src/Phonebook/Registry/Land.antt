-- ===== src/Phonebook/Registry/Land.antt =====
-- Storage as src/phonebook.rs `registry_plan` meets it: one record for each key, replaced by a newer
-- one only, as `Slice::insert` does, and the blobs. `apply_plan` of the file's tests is the same
-- without the rule on epochs.
use fgtw.Base.{
  ℕ, zero, suc, ◌+◌, ◌^◌, ◌≤◌, ◌<◌, ◌≡◌, refl, ap, ◌∙◌, inl, inr, true, false, ==_iff, ◌≢◌, Option,
  none, some, List, [], ◌∷◌, ◌++◌, ◌==◌, map, length, All, arith, Bool-cases, if◌then◌else◌, leb,
}
use fgtw.Base.Bytes.{Bytes, Is32, eqb, eqb_iff}
use fgtw.Base.Int.{ℤ, IsI64, leb_ℤ}
use fgtw.Primitives.{Primitives, DigestBytes}
use fgtw.Pq.Scheme.{Mask}
use fgtw.Fleet.Members.{Slot, put_slot}
use fgtw.Fleet.Build.Signer.{FleetSigner}
use fgtw.Phonebook.Record.{
  Record, empty_record, identity_count, device_pointer, kind, device_pubkey, index, count, epoch,
}
use fgtw.Phonebook.Pointers.{new_device_pointer_lem}
use fgtw.Phonebook.Eggs.{eggs_ptr, eggs_blob_max}
use fgtw.Phonebook.Registry.{RegistryView, pointer_write, pointer_writes}

-- What stands under the keys of one identity: its count, and the pointer of each index.
pub record Store : Type 0 where
  pub count_at : Option Record
  pub pointer_at : ℕ → Option Record
  pub blobs : List (Slot Bytes)

-- `insert` at a key: a record gets in where none stands, or one of an older epoch.
unfoldable pub keep_newer : Option Record → Record → Option Record
keep_newer none r = some r
keep_newer (some q) r = if leb_ℤ (epoch r) (epoch q) then some q else some r

abbrev pub or_blank : Option Record → Record
or_blank none = empty_record
or_blank (some r) = r

unfoldable pub gather : ℕ → ℕ → (ℕ → Option Record) → List Record
gather i zero at = []
gather i (suc n) at = or_blank (at i) ∷ gather (suc i) n at

abbrev pub extent : Option Record → ℕ
extent none = 0
extent (some c) = count c

-- What a reader sees: the count, and as many pointers.
unfoldable pub shown : Store → RegistryView
unfolding gather
shown s = record {
  count_record = s.count_at;
  pointers = gather 0 (extent s.count_at) s.pointer_at;
  blobs = s.blobs;
}

abbrev pub put_pointer : Record → (ℕ → Option Record) → ℕ → Option Record
put_pointer r at i = if i == index r then keep_newer (at i) r else at i

module _ (p : Primitives) where
  unfoldable pub land : Store → Record × Bytes → Store
  unfolding keep_newer
  land s (r, blob) =
      let blobs =
        if leb (length blob) eggs_blob_max
        then put_slot (eggs_ptr p blob) blob s.blobs
        else s.blobs in
      elim (kind r) [
        | device_pointer ↦ record s { pointer_at = put_pointer r s.pointer_at; blobs = blobs }
        | identity_count ↦ record s { count_at = keep_newer s.count_at r; blobs = blobs }
        | _ ↦ s
      ]

  unfoldable pub land_all : Store → List (Record × Bytes) → Store
  unfolding land
  land_all s [] = s
  land_all s (w ∷ ws) = land_all (land s w) ws

  pub land_all-snoc :
      (s : Store) (ws : List (Record × Bytes)) (w : Record × Bytes)
      → land_all s (ws ++ w ∷ []) ≡ land (land_all s ws) w
  unfolding land_all
  land_all-snoc s [] w = refl
  land_all-snoc s (v ∷ ws) w = land_all-snoc (land s v) ws w

-- The time is after that of the record that stands there.
abbrev pub IsAfter : ℤ → Option Record → Type 0
IsAfter t none = Unit
IsAfter t (some q) = leb_ℤ t (epoch q) ≡ false

-- A write of time `t` is refused nowhere.
abbrev pub IsOlder : ℤ → Store → Type 0
IsOlder t s = IsAfter t s.count_at × ((i : ℕ) → IsAfter t (s.pointer_at i))

pub keep_newer-IsAfter :
    (o : Option Record) (r : Record) {t : ℤ} → epoch r ≡ t → IsAfter t o → keep_newer o r ≡ some r
unfolding keep_newer
keep_newer-IsAfter none r e h = refl
keep_newer-IsAfter (some q) r e h = rw (e, h) refl

gather-agree :
    (i n : ℕ) (at at' : ℕ → Option Record)
    → ((j : ℕ) → i ≤ j → at j ≡ at' j)
    → gather i n at ≡ gather i n at'
unfolding gather
gather-agree i zero at at' h = refl
gather-agree i (suc n) at at' h = rw (h i (omega arith)) (
    ap (◌∷◌ (or_blank (at' i)))
      (gather-agree (suc i) n at at' (λ j later. h j (omega (arith, later)))))

module _ (p : Primitives) (signer : FleetSigner) (mask : Mask) (hp : Bytes) (t : ℤ) where
  -- What the writer of a plan is: arrays of 32 bytes and an i64.
  pub record Writer : Type 0 where
    pub digest : DigestBytes p
    pub handle : Is32 hp
    pub public : Is32 signer.public
    pub time : IsI64 t

  module _ (writer : Writer) where
    -- A pointer's write lands at its index, and touches no other.
    pub land-pointer_write :
        (s : Store) (idx : ℕ) (dev : Bytes)
        → Is32 dev
        → idx < 2 ^ 32
        → IsAfter t (s.pointer_at idx)
        → let s' = land p s (pointer_write p signer mask hp t idx dev) in
          (device_pubkey (or_blank (s'.pointer_at idx)) ≡ dev)
          × ((i : ℕ) → i ≢ idx → s'.pointer_at i ≡ s.pointer_at i)
          × (s'.count_at ≡ s.count_at)
    unfolding land pointer_write eggs_ptr
    land-pointer_write s idx dev dev32 small after =
        let w = pointer_write p signer mask hp t idx dev in
        let (k, h, i, d, e, by, ptr, key) =
          new_device_pointer_lem p hp idx dev t signer.public _ writer.handle dev32 writer.public
            (writer.digest.derived_length _ _) small writer.time in
        let here : (idx == idx) ≡ true = (==_iff idx idx).1 refl in
        rw (k, land, i, here, keep_newer-IsAfter (s.pointer_at idx) w.0 e after)
          (
            d,
            λ j other.
                let not_here : (j == idx) ≡ false = ground (arith, ==_iff j idx, other) in
                rw not_here refl,
            refl,
          )

    -- Behind the writes of the list from index `idx` on, its devices stand there, in order, and what
    -- stands elsewhere is as it was.
    abbrev pub IsLanded : Store → ℕ → List Bytes → Store → Type 0
    IsLanded s idx list out =
        (map device_pubkey (gather idx (length list) out.pointer_at) ≡ list)
        × ((i : ℕ) → i < idx → out.pointer_at i ≡ s.pointer_at i)
        × (out.count_at ≡ s.count_at)

    -- The first device stands at `idx`, and the others behind it.
    onward :
        (s s' out : Store) (idx : ℕ) (dev : Bytes) (list : List Bytes)
        → device_pubkey (or_blank (s'.pointer_at idx)) ≡ dev
        → ((i : ℕ) → i ≢ idx → s'.pointer_at i ≡ s.pointer_at i)
        → s'.count_at ≡ s.count_at
        → IsLanded s' (suc idx) list out
        → IsLanded s idx (dev ∷ list) out
    unfolding gather
    onward s s' out idx dev list is_dev elsewhere counted (run, below, count) = (
      rw (below idx (omega arith), is_dev, run) refl,
      λ i less. below i (omega (arith, less)) ∙ elsewhere i (λ e. absurd (omega (arith, e, less))),
      count ∙ counted,
    )

    pub land-pointer_writes :
        (list : List Bytes) (idx m : ℕ) (s : Store)
        → ((i : ℕ) → idx ≤ i → IsAfter t (s.pointer_at i))
        → All Is32 list
        → idx + length list < 2 ^ 32
        → IsLanded s idx list (
            land_all p s (
              pointer_writes p signer mask hp t idx
                (map device_pubkey (gather idx m s.pointer_at))
                list))
    unfolding land_all pointer_writes gather
    land-pointer_writes [] idx m s after all32 small = (refl, λ i less. refl, refl)
    land-pointer_writes (dev ∷ list) idx zero s after (dev32, all32) small =
        let s' = land p s (pointer_write p signer mask hp t idx dev) in
        let (is_dev, elsewhere, counted) =
          land-pointer_write s idx dev dev32 (omega (arith, small)) (after idx (omega arith)) in
        let later =
          land-pointer_writes list (suc idx) 0 s'
            (λ i more.
              rw (elsewhere i (λ e. absurd (omega (arith, e, more))))
                (after i (omega (arith, more))))
            all32 (omega (arith, small)) in
        onward s s' (land_all p s' (pointer_writes p signer mask hp t (suc idx) [] list)) idx dev
          list is_dev elsewhere counted later
    land-pointer_writes (dev ∷ list) idx (suc m) s after (dev32, all32) small =
        elim (Bool-cases (eqb (device_pubkey (or_blank (s.pointer_at idx))) dev)) [
          | inl same ↦
              let is_dev = (eqb_iff (device_pubkey (or_blank (s.pointer_at idx))) dev).0 same in
              let later =
                land-pointer_writes list (suc idx) m s (λ i more. after i (omega (arith, more)))
                  all32 (omega (arith, small)) in
              rw same (
                onward s s
                  (land_all p s (
                    pointer_writes p signer mask hp t (suc idx)
                      (map device_pubkey (gather (suc idx) m s.pointer_at)) list))
                  idx dev list is_dev (λ i other. refl) refl later)
          | inr differ ↦
              let s' = land p s (pointer_write p signer mask hp t idx dev) in
              let (is_dev, elsewhere, counted) =
                land-pointer_write s idx dev dev32 (omega (arith, small))
                  (after idx (omega arith)) in
              let apart : (i : ℕ) → suc idx ≤ i → s'.pointer_at i ≡ s.pointer_at i =
                λ i more. elsewhere i (λ e. absurd (omega (arith, e, more))) in
              let later =
                land-pointer_writes list (suc idx) m s'
                  (λ i more. rw (apart i more) (after i (omega (arith, more)))) all32
                  (omega (arith, small)) in
              let rest = gather-agree (suc idx) m s'.pointer_at s.pointer_at apart in
              rw differ (
                onward s s'
                  (land_all p s' (
                    pointer_writes p signer mask hp t (suc idx)
                      (map device_pubkey (gather (suc idx) m s.pointer_at)) list))
                  idx dev list is_dev elsewhere counted (rw rest at later))
        ]
