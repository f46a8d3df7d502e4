-- ===== src/Phonebook/Record.antt =====
-- src/phonebook.rs: the typed view over the bytes of a record, its layouts, key and epoch.
use fgtw.Base.{
  ℕ, ◌-◌, ◌^◌, Bool, true, false, Option, none, some, [], ◌∷◌, ◌==◌, replicate, if◌then◌else◌,
}
use fgtw.Base.Bytes.{Bytes, zero32, eqb, from_le_bytes}
use fgtw.Base.Int.{ℤ, negsuc, i64_of}
use fgtw.Primitives.{Primitives}
use fgtw.Phonebook.Layout.{
  ic_handle, ic_count, ic_epoch, ic_witness, ic_departing, ic_eggs, dp_handle, dp_index, dp_device,
  dp_epoch, dp_placer, dp_eggs, da_device, da_handle, da_ip, da_port, da_local_ip, da_timestamp,
  da_eggs, da_local_port, as_set, read, rd32, rd_u32,
}
use fgtw.Phonebook.Keys.{key_identity, key_pointer, key_address, key_address_set, stride}

pub data RecordKind : Type 0 where
  empty identity_count device_pointer device_address device_address_set : RecordKind

unfoldable pub from_byte : ℕ → Option RecordKind
from_byte b =
    if b == 0
    then some empty
    else if b == 1
    then some identity_count
    else if b == 2
    then some device_pointer
    else if b == 3
    then some device_address
    else if b == 4
    then some device_address_set
    else none

-- The discriminant, `kind as u8`.
unfoldable pub kind_tag : RecordKind → ℕ
kind_tag empty = 0
kind_tag identity_count = 1
kind_tag device_pointer = 2
kind_tag device_address = 3
kind_tag device_address_set = 4

-- `Record([u8; STRIDE])`
pub record Record : Type 0 where
  pub bytes : Bytes

unfoldable pub rd_i64 : Bytes → ℕ → ℤ
unfolding read i64_of
rd_i64 b at = i64_of (from_le_bytes (read at 8 b))

unfoldable pub empty_record : Record
empty_record = record { bytes = replicate stride 0 }

-- `self.0[0]`; the array is never empty.
abbrev pub first_byte : Bytes → ℕ
first_byte [] = 0
first_byte (b ∷ bs) = b

abbrev pub kind_or_empty : Option RecordKind → RecordKind
kind_or_empty none = empty
kind_or_empty (some k) = k

unfoldable pub kind : Record → RecordKind
kind r = kind_or_empty (from_byte (first_byte r.bytes))

-- `i64::MIN`
abbrev pub i64_min : ℤ
i64_min = negsuc (2 ^ 63 - 1)

unfoldable pub epoch : Record → ℤ
epoch r = elim (kind r) [
  | empty ↦ i64_min
  | identity_count ↦ rd_i64 r.bytes ic_epoch
  | device_pointer ↦ rd_i64 r.bytes dp_epoch
  | device_address ↦ rd_i64 r.bytes da_timestamp
  | device_address_set ↦ rd_i64 r.bytes da_timestamp
]

-- Fields of every kind.
unfoldable pub handle_proof : Record → Bytes
handle_proof r = elim (kind r) [
  | device_address ↦ rd32 r.bytes da_handle
  | device_address_set ↦ rd32 r.bytes da_handle
  | _ ↦ rd32 r.bytes ic_handle
]

unfoldable pub device_pubkey : Record → Bytes
device_pubkey r = elim (kind r) [
  | device_address ↦ rd32 r.bytes da_device
  | device_address_set ↦ rd32 r.bytes da_device
  | _ ↦ rd32 r.bytes dp_device
]

unfoldable pub record_eggs_ptr : Record → Bytes
record_eggs_ptr r = elim (kind r) [
  | empty ↦ zero32
  | identity_count ↦ rd32 r.bytes ic_eggs
  | device_pointer ↦ rd32 r.bytes dp_eggs
  | device_address ↦ rd32 r.bytes da_eggs
  | device_address_set ↦ rd32 r.bytes da_eggs
]

-- `IdentityCount`
unfoldable pub count : Record → ℕ
count r = rd_u32 r.bytes ic_count

unfoldable pub witness : Record → Bytes
witness r = rd32 r.bytes ic_witness

unfoldable pub departing : Record → Option Bytes
departing r = let d = rd32 r.bytes ic_departing in if eqb d zero32 then none else some d

-- `DevicePointer`
unfoldable pub index : Record → ℕ
index r = rd_u32 r.bytes dp_index

unfoldable pub placer : Record → Bytes
placer r = rd32 r.bytes dp_placer

-- `DeviceAddress`
unfoldable pub ip : Record → Bytes
unfolding read
ip r = read da_ip 16 r.bytes

unfoldable pub port : Record → ℕ
unfolding read
port r = from_le_bytes (read da_port 2 r.bytes)

unfoldable pub local_port : Record → ℕ
unfolding read
local_port r = from_le_bytes (read da_local_port 2 r.bytes)

unfoldable pub local_ip : Record → Bytes
unfolding read
local_ip r = read da_local_ip 16 r.bytes

-- `DeviceAddressSet`
unfoldable pub set_ptr : Record → Bytes
set_ptr r = rd32 r.bytes as_set

module _ (p : Primitives) where
  -- `Record::key`
  unfoldable pub key : Record → Option Bytes
  key r = elim (kind r) [
    | empty ↦ none
    | identity_count ↦ some (key_identity p (rd32 r.bytes ic_handle))
    | device_pointer ↦ some (key_pointer p (rd32 r.bytes dp_handle) (rd_u32 r.bytes dp_index))
    | device_address ↦ some (key_address p (rd32 r.bytes da_device))
    | device_address_set ↦ some (key_address_set p (rd32 r.bytes da_device))
  ]

unfoldable pub is_empty_record : Record → Bool
is_empty_record r = elim (kind r) [ empty ↦ true | _ ↦ false ]
