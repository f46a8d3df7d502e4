-- ===== src/Tests/Fstate.antt =====
-- Two copies of a roster: one holds a friend, the other a later change and a deletion.
use fgtw.Base.{ℕ, ◌≡◌, refl, not, ◌||◌, true, false, none, List, [], ◌∷◌, ◌++◌, All}
use fgtw.Base.Bytes.{Bytes, eqb}
use fgtw.Base.Int.{pos}
use fgtw.Base.ByteOrder.{leb_bytes}
use fgtw.Fstate.Merge.{insert_by, sort_by, squash, dedup_by, merge_by_key}
use fgtw.Fstate.Survivor.{find_by_key, one_pass, merge_by_key-one_pass}
use fgtw.Fstate.Rising.{IsRising, merge_by_key-IsRising}
use fgtw.Fstate.Roster.{
  RosterEntry, roster_entry_canon, outranks, newer_entry, merge_rosters, SettingEntry,
}
use fgtw.Fstate.Newest.{outlasts, entry_yields, merge_rosters-newest}

abbrev friend : ℕ → ℕ → Bytes → RosterEntry
friend n t name = record {
  handle_proof = n ∷ [];
  handle_hash = [];
  public_identity = [];
  avatar_pin = [];
  added = pos 1;
  updated = pos t;
  tombstone = false;
  ceremony_owner = [];
  woven = false;
  trust_level = 0;
  published_name = name;
  consent = true;
}

abbrev here : List RosterEntry
here = friend 2 10 [] ∷ friend 1 10 [] ∷ []

abbrev there : List RosterEntry
there = friend 1 12 (7 ∷ []) ∷ record (friend 2 10 []) { tombstone = true } ∷ []

-- The later change and the deletion survive.
merged : merge_rosters here there ≡ there
unfolding merge_rosters merge_by_key dedup_by squash sort_by insert_by leb_bytes eqb newer_entry
    outranks roster_entry_canon
merged = refl

abbrev proof_of : RosterEntry → Bytes
proof_of e = e.handle_proof

merge_by_key-one_pass_example :
    find_by_key proof_of (1 ∷ []) (merge_by_key proof_of newer_entry here there)
    ≡ one_pass proof_of newer_entry (1 ∷ []) none (here ++ there)
merge_by_key-one_pass_example = merge_by_key-one_pass proof_of newer_entry (1 ∷ []) here there

merge_by_key-IsRising_example : IsRising proof_of (merge_by_key proof_of newer_entry here there)
merge_by_key-IsRising_example = merge_by_key-IsRising proof_of newer_entry here there

merge_rosters-newest_example :
    All
      (λ (x : RosterEntry).
        (not (eqb x.handle_proof (2 ∷ []))
          || outlasts entry_yields
              (find_by_key
                (λ (e : RosterEntry). e.handle_proof)
                (2 ∷ [])
                (merge_rosters here there))
              x)
        ≡ true)
      (here ++ there)
merge_rosters-newest_example = merge_rosters-newest (2 ∷ []) here there

abbrev zoom : ℕ → ℕ → SettingEntry ℕ
zoom v t = record { key = 122 ∷ []; value = v; updated = pos t; tombstone = false }
