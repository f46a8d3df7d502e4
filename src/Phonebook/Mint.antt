-- ===== src/Phonebook/Mint.antt =====
-- src/phonebook.rs: the records as their writers build them, and the bytes that signatures cover.
use fgtw.Base.{ℕ, Option, none, some, [], ◌∷◌, ◌++◌, ◌==◌, replicate, if◌then◌else◌}
use fgtw.Base.Bytes.{Bytes, le_bytes}
use fgtw.Base.Int.{ℤ}
use fgtw.Base.Text.{codes}
use fgtw.Fleet.Signing.{time_bytes}
use fgtw.Phonebook.Keys.{stride}
use fgtw.Phonebook.Layout.{
  ic_handle, ic_count, ic_epoch, ic_witness, ic_departing, ic_eggs, dp_handle, dp_index, dp_device,
  dp_epoch, dp_placer, dp_eggs, da_device, da_handle, da_ip, da_port, da_local_ip, da_timestamp,
  da_eggs, da_local_port, as_set, write, rd32,
}
use fgtw.Phonebook.Record.{
  Record, RecordKind, identity_count, device_pointer, device_address, device_address_set, kind_tag,
  count, index, epoch, ip, port, local_ip, local_port, set_ptr,
}

-- `[0u8; STRIDE]` with the kind's byte first.
unfoldable pub blank : RecordKind → Bytes
unfolding write kind_tag
blank kind = write 0 (kind_tag kind ∷ []) (replicate stride 0)

-- `if let Some(dev) = departing`
unfoldable pub write_departing : Option Bytes → Bytes → Bytes
unfolding write
write_departing none b = b
write_departing (some dev) b = write ic_departing dev b

unfoldable pub new_identity_count : Bytes → ℕ → ℤ → Bytes → Option Bytes → Bytes → Record
unfolding write blank write_departing
new_identity_count handle_proof count epoch witness departing eggs_ptr =
    let b₁ = write ic_handle handle_proof (blank identity_count) in
    let b₂ = write ic_count (le_bytes 4 count) b₁ in
    let b₃ = write ic_epoch (time_bytes epoch) b₂ in
    let b₄ = write ic_witness witness b₃ in
    record { bytes = write ic_eggs eggs_ptr (write_departing departing b₄) }

unfoldable pub new_device_pointer : Bytes → ℕ → Bytes → ℤ → Bytes → Bytes → Record
unfolding write blank
new_device_pointer handle_proof index device_pubkey epoch placer eggs_ptr =
    let b₁ = write dp_handle handle_proof (blank device_pointer) in
    let b₂ = write dp_index (le_bytes 4 index) b₁ in
    let b₃ = write dp_device device_pubkey b₂ in
    let b₄ = write dp_epoch (time_bytes epoch) b₃ in
    let b₅ = write dp_placer placer b₄ in record { bytes = write dp_eggs eggs_ptr b₅ }

unfoldable pub new_device_address : Bytes → Bytes → Bytes → ℕ → Bytes → ℕ → ℤ → Bytes → Record
unfolding write blank
new_device_address device_pubkey handle_proof ip port local_ip local_port timestamp eggs_ptr =
    let b₁ = write da_device device_pubkey (blank device_address) in
    let b₂ = write da_handle handle_proof b₁ in
    let b₃ = write da_ip ip b₂ in
    let b₄ = write da_port (le_bytes 2 port) b₃ in
    let b₅ = write da_local_ip local_ip b₄ in
    let b₆ = write da_local_port (le_bytes 2 local_port) b₅ in
    let b₇ = write da_timestamp (time_bytes timestamp) b₆ in
    record { bytes = write da_eggs eggs_ptr b₇ }

unfoldable pub new_device_address_set : Bytes → Bytes → Bytes → ℤ → Bytes → Record
unfolding write blank
new_device_address_set device_pubkey handle_proof set_ptr timestamp eggs_ptr =
    let b₁ = write da_device device_pubkey (blank device_address_set) in
    let b₂ = write da_handle handle_proof b₁ in
    let b₃ = write as_set set_ptr b₂ in
    let b₄ = write da_timestamp (time_bytes timestamp) b₃ in
    record { bytes = write da_eggs eggs_ptr b₄ }

-- The LAN port is covered only where it is stated.
unfoldable pub local_port_part : ℕ → Bytes
local_port_part lp = if lp == 0 then [] else codes "local_port" ++ le_bytes 2 lp

unfoldable pub address_signing_bytes : Record → Bytes
unfolding local_port_part
address_signing_bytes r =
    codes "PHOTON_PB_ADDR_SIG_v2"
    ++ (rd32 r.bytes da_handle
        ++ (rd32 r.bytes da_device
            ++ (ip r
                ++ (le_bytes 2 (port r)
                    ++ (local_ip r ++ (time_bytes (epoch r) ++ local_port_part (local_port r)))))))

unfoldable pub address_set_signing_bytes : Record → Bytes
address_set_signing_bytes r =
    codes "PHOTON_PB_ADDRSET_SIG_v1"
    ++ (rd32 r.bytes da_handle ++ (rd32 r.bytes da_device ++ (set_ptr r ++ time_bytes (epoch r))))

unfoldable pub placement_signing_bytes : Record → Bytes
placement_signing_bytes r =
    codes "PHOTON_PB_PLACE_SIG_v2"
    ++ (rd32 r.bytes dp_handle
        ++ (le_bytes 4 (index r) ++ (time_bytes (epoch r) ++ rd32 r.bytes dp_device)))

unfoldable pub count_signing_bytes : Record → Bytes
count_signing_bytes r =
    codes "PHOTON_PB_COUNT_SIG_v2"
    ++ (rd32 r.bytes ic_handle
        ++ (le_bytes 4 (count r) ++ (time_bytes (epoch r) ++ rd32 r.bytes ic_departing)))

unfoldable pub departure_signing_bytes : Bytes → Bytes → ℤ → Bytes
departure_signing_bytes handle_proof device t =
    codes "PHOTON_PB_DEPART_SIG_v2" ++ (handle_proof ++ (device ++ time_bytes t))
