-- ===== src/Fstate/Roster.antt =====
-- src/fstate.rs: the roster and the global settings, and their merges.
use Prim.Native.Nat.{compare, Ordering}
use fgtw.Base.{ℕ, Bool, true, false, not, ◌&&◌, ◌||◌, List}
use fgtw.Base.Bytes.{Bytes}
use fgtw.Base.Int.{ℤ, ltb_ℤ, eqb_ℤ}
use fgtw.Fstate.Order.{cmp_bytes, cmp_ℤ, cmp_bool, ◌then_by◌, is_gt}
use fgtw.Fstate.Merge.{merge_by_key}

-- A text is its bytes.
pub record RosterEntry : Type 0 where
  pub handle_proof : Bytes
  pub handle_hash : Bytes
  pub public_identity : Bytes
  pub avatar_pin : Bytes
  pub added : ℤ
  pub updated : ℤ
  pub tombstone : Bool
  pub ceremony_owner : Bytes
  pub woven : Bool
  pub trust_level : ℕ
  pub published_name : Bytes
  pub consent : Bool

-- The order of `roster_entry_canon`.
unfoldable pub roster_entry_canon : RosterEntry → RosterEntry → Ordering
roster_entry_canon e f =
    cmp_bytes e.handle_hash f.handle_hash
    then_by cmp_bytes e.public_identity f.public_identity
    then_by cmp_bytes e.avatar_pin f.avatar_pin
    then_by cmp_ℤ e.added f.added
    then_by cmp_bytes e.ceremony_owner f.ceremony_owner
    then_by cmp_bool e.woven f.woven
    then_by compare e.trust_level f.trust_level
    then_by cmp_bytes e.published_name f.published_name
    then_by cmp_bool e.consent f.consent

abbrev same_flag : Bool → Bool → Bool
same_flag true b = b
same_flag false b = not b

-- The later stamp wins; then a tombstone, and then the greater content, given here as a test.
unfoldable pub outranks : ℤ → Bool → ℤ → Bool → Bool → Bool
outranks updated tombstone held_updated held_tombstone greater =
    ltb_ℤ held_updated updated
    || (eqb_ℤ updated held_updated
        && ((tombstone && not held_tombstone) || (same_flag tombstone held_tombstone && greater)))

unfoldable pub newer_entry : RosterEntry → RosterEntry → Bool
unfolding outranks
newer_entry e cur =
    outranks e.updated e.tombstone cur.updated cur.tombstone (is_gt (roster_entry_canon e cur))

unfoldable pub merge_rosters : List RosterEntry → List RosterEntry → List RosterEntry
merge_rosters a b = merge_by_key (λ (e : RosterEntry). e.handle_proof) newer_entry a b

-- A setting's value is one of the vsf crate, whose `flatten` gives its bytes.
pub record SettingEntry (V : Type 0) : Type 0 where
  pub key : Bytes
  pub value : V
  pub updated : ℤ
  pub tombstone : Bool

module _ {V : Type 0} (flatten : V → Bytes) where
  unfoldable pub newer_setting : SettingEntry V → SettingEntry V → Bool
  unfolding outranks
  newer_setting e cur =
      outranks e.updated e.tombstone cur.updated cur.tombstone
        (is_gt (cmp_bytes (flatten e.value) (flatten cur.value)))

  unfoldable pub merge_global_settings :
      List (SettingEntry V) → List (SettingEntry V) → List (SettingEntry V)
  merge_global_settings a b = merge_by_key (λ (e : SettingEntry V). e.key) newer_setting a b
