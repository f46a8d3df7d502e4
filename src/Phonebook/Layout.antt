-- ===== src/Phonebook/Layout.antt =====
-- src/phonebook.rs: where the fields of each kind of record stand, and reading and writing of bytes
-- at an offset.
use fgtw.Base.{ℕ, zero, suc, [], ◌∷◌, ◌++◌, length, take, drop}
use fgtw.Base.Bytes.{Bytes, from_le_bytes}

-- `IdentityCount`
abbrev pub ic_handle : ℕ
ic_handle = 1

abbrev pub ic_count : ℕ
ic_count = 33

abbrev pub ic_epoch : ℕ
ic_epoch = 37

abbrev pub ic_witness : ℕ
ic_witness = 45

abbrev pub ic_departing : ℕ
ic_departing = 77

abbrev pub ic_eggs : ℕ
ic_eggs = 109

-- `DevicePointer`
abbrev pub dp_handle : ℕ
dp_handle = 1

abbrev pub dp_index : ℕ
dp_index = 33

abbrev pub dp_device : ℕ
dp_device = 37

abbrev pub dp_epoch : ℕ
dp_epoch = 69

abbrev pub dp_placer : ℕ
dp_placer = 77

abbrev pub dp_eggs : ℕ
dp_eggs = 109

-- `DeviceAddress`
abbrev pub da_device : ℕ
da_device = 1

abbrev pub da_handle : ℕ
da_handle = 33

abbrev pub da_ip : ℕ
da_ip = 65

abbrev pub da_port : ℕ
da_port = 81

abbrev pub da_local_ip : ℕ
da_local_ip = 83

abbrev pub da_timestamp : ℕ
da_timestamp = 99

abbrev pub da_eggs : ℕ
da_eggs = 107

abbrev pub da_local_port : ℕ
da_local_port = 139

-- `DeviceAddressSet`
abbrev pub as_set : ℕ
as_set = 65

-- `&b[at..at + n]`
unfoldable pub read : ℕ → ℕ → Bytes → Bytes
read at n b = take n (drop at b)

-- `b[at..at + bs.len()].copy_from_slice(bs)`
unfoldable pub write : ℕ → Bytes → Bytes → Bytes
write zero bs b = bs ++ drop (length bs) b
write (suc at) bs [] = []
write (suc at) bs (x ∷ b) = x ∷ write at bs b

unfoldable pub rd32 : Bytes → ℕ → Bytes
unfolding read
rd32 b at = read at 32 b

unfoldable pub rd_u32 : Bytes → ℕ → ℕ
unfolding read
rd_u32 b at = from_le_bytes (read at 4 b)
