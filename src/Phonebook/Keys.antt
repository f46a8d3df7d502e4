-- ===== src/Phonebook/Keys.antt =====
-- src/phonebook.rs: the keys of records, and the slice and slot that a key names.
use fgtw.Base.{ℕ, ◌-◌, ◌/◌, ◌%◌, ◌^◌, ◌≡◌, ◌++◌, ◌==◌, take, length, All, if◌then◌else◌}
use fgtw.Base.Bytes.{Bytes, le_bytes}
use fgtw.Base.BigEndian.{from_be_bytes, IsByte}
use fgtw.Base.Text.{codes}
use fgtw.Primitives.{Primitives}

module _ (p : Primitives) where
  unfoldable pub key_identity : Bytes → Bytes
  key_identity handle_proof = p.blake3 (codes "PHOTON_PB_IDENTITY_v1" ++ handle_proof)

  -- The index is a u32.
  unfoldable pub key_pointer : Bytes → ℕ → Bytes
  key_pointer handle_proof index =
      p.blake3 (codes "PHOTON_PB_POINTER_v1" ++ (handle_proof ++ le_bytes 4 index))

  unfoldable pub key_address : Bytes → Bytes
  key_address device_pubkey = p.blake3 (codes "PHOTON_PB_ADDRESS_v1" ++ device_pubkey)

  unfoldable pub key_address_set : Bytes → Bytes
  key_address_set device_pubkey = p.blake3 (codes "PHOTON_PB_ADDRSET_v1" ++ device_pubkey)

-- `SLICE_SLOTS`, `SLOT_BITS`, `STRIDE`
abbrev pub slice_slots : ℕ
slice_slots = 4096

abbrev pub slot_bits : ℕ
slot_bits = 12

abbrev pub stride : ℕ
stride = 256

-- Shifts right are divisions by powers of two. The code panics where `slice_bits` is over 32.
unfoldable pub slice_of : Bytes → ℕ → ℕ
slice_of key slice_bits =
    if slice_bits == 0 then 0 else from_be_bytes (take 4 key) / 2 ^ (32 - slice_bits)

unfoldable pub slot_of : Bytes → ℕ → ℕ
slot_of key slice_bits =
    from_be_bytes (take 8 key) / 2 ^ (64 - slice_bits - slot_bits) % slice_slots

unfoldable pub address_of : Bytes → ℕ → ℕ
address_of key slice_bits = from_be_bytes (take 8 key) / 2 ^ (64 - slice_bits - slot_bits)

-- 32 bytes, as `Key` is.
abbrev pub IsKey : Bytes → Type 0
IsKey k = (length k ≡ 32) × All IsByte k
