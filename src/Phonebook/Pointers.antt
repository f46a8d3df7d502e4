-- ===== src/Phonebook/Pointers.antt =====
-- src/phonebook.rs `Record::new_device_pointer` is read back by the accessors.
use fgtw.Base.{ℕ, ◌^◌, ◌<◌, ◌≡◌, refl, ap, ◌∙◌, some, arith}
use fgtw.Base.Bytes.{Bytes, Is32, le_bytes, length-le_bytes, from_le_bytes, from_le_bytes-le_bytes}
use fgtw.Base.Int.{ℤ, IsI64, i64_of}
use fgtw.Fleet.Signing.{time_bytes}
use fgtw.Primitives.{Primitives}
use fgtw.Phonebook.Keys.{key_pointer}
use fgtw.Phonebook.Layout.{
  read, write, rd32, rd_u32, dp_handle, dp_index, dp_device, dp_epoch, dp_placer, dp_eggs,
}
use fgtw.Phonebook.Record.{
  Record, device_pointer, kind, key, from_byte, kind_tag, handle_proof, index, device_pubkey, epoch,
  placer, record_eggs_ptr, rd_i64,
}
use fgtw.Phonebook.Mint.{blank, new_device_pointer}
use fgtw.Phonebook.Fields.{
  read-write, read-write_left, i64_of-time_bytes, IsStride, write-IsStride, length-time_bytes,
}

module _ (hp : Bytes) (i : ℕ) (dev : Bytes) (t : ℤ) (by : Bytes) (ptr : Bytes) where
  abbrev made : Record
  made = new_device_pointer hp i dev t by ptr

  kind-made : kind made ≡ device_pointer
  unfolding kind from_byte new_device_pointer write blank kind_tag
  kind-made = refl

  module _ (hp32 : Is32 hp) (dev32 : Is32 dev) (by32 : Is32 by) (ptr32 : Is32 ptr) where
    abbrev b₀ : Bytes
    b₀ = blank device_pointer

    abbrev b₁ : Bytes
    b₁ = write dp_handle hp b₀

    abbrev b₂ : Bytes
    b₂ = write dp_index (le_bytes 4 i) b₁

    abbrev b₃ : Bytes
    b₃ = write dp_device dev b₂

    abbrev b₄ : Bytes
    b₄ = write dp_epoch (time_bytes t) b₃

    abbrev b₅ : Bytes
    b₅ = write dp_placer by b₄

    full₀ : IsStride b₀
    unfolding blank write kind_tag
    full₀ = refl

    full₁ : IsStride b₁
    full₁ = write-IsStride 1 32 hp b₀ full₀ hp32 (omega arith)

    full₂ : IsStride b₂
    full₂ = write-IsStride 33 4 (le_bytes 4 i) b₁ full₁ (length-le_bytes 4 i) (omega arith)

    full₃ : IsStride b₃
    full₃ = write-IsStride 37 32 dev b₂ full₂ dev32 (omega arith)

    full₄ : IsStride b₄
    full₄ = write-IsStride 69 8 (time_bytes t) b₃ full₃ (length-time_bytes t) (omega arith)

    full₅ : IsStride b₅
    full₅ = write-IsStride 77 32 by b₄ full₄ by32 (omega arith)

    made-handle_proof : rd32 made.bytes dp_handle ≡ hp
    unfolding rd32 new_device_pointer
    made-handle_proof =
        read-write_left 1 32 109 ptr b₅ (omega arith)
        ∙ (read-write_left 1 32 77 by b₄ (omega arith)
            ∙ (read-write_left 1 32 69 (time_bytes t) b₃ (omega arith)
                ∙ (read-write_left 1 32 37 dev b₂ (omega arith)
                    ∙ (read-write_left 1 32 33 (le_bytes 4 i) b₁ (omega arith)
                        ∙ read-write 1 32 hp b₀ hp32 (omega (arith, full₀))))))

    made-index : read dp_index 4 made.bytes ≡ le_bytes 4 i
    unfolding new_device_pointer
    made-index =
        read-write_left 33 4 109 ptr b₅ (omega arith)
        ∙ (read-write_left 33 4 77 by b₄ (omega arith)
            ∙ (read-write_left 33 4 69 (time_bytes t) b₃ (omega arith)
                ∙ (read-write_left 33 4 37 dev b₂ (omega arith)
                    ∙ read-write 33 4 (le_bytes 4 i) b₁ (length-le_bytes 4 i)
                        (omega (arith, full₁)))))

    made-device : rd32 made.bytes dp_device ≡ dev
    unfolding rd32 new_device_pointer
    made-device =
        read-write_left 37 32 109 ptr b₅ (omega arith)
        ∙ (read-write_left 37 32 77 by b₄ (omega arith)
            ∙ (read-write_left 37 32 69 (time_bytes t) b₃ (omega arith)
                ∙ read-write 37 32 dev b₂ dev32 (omega (arith, full₂))))

    made-epoch : read dp_epoch 8 made.bytes ≡ time_bytes t
    unfolding new_device_pointer
    made-epoch =
        read-write_left 69 8 109 ptr b₅ (omega arith)
        ∙ (read-write_left 69 8 77 by b₄ (omega arith)
            ∙ read-write 69 8 (time_bytes t) b₃ (length-time_bytes t) (omega (arith, full₃)))

    made-placer : rd32 made.bytes dp_placer ≡ by
    unfolding rd32 new_device_pointer
    made-placer =
        read-write_left 77 32 109 ptr b₅ (omega arith)
        ∙ read-write 77 32 by b₄ by32 (omega (arith, full₄))

    made-eggs : rd32 made.bytes dp_eggs ≡ ptr
    unfolding rd32 new_device_pointer
    made-eggs = read-write 109 32 ptr b₅ ptr32 (omega (arith, full₅))

-- The accessors of a pointer, by the fields they read.
module _ (r : Record) (e : kind r ≡ device_pointer) where
  pub device_pubkey-pointer : device_pubkey r ≡ rd32 r.bytes dp_device
  unfolding device_pubkey
  device_pubkey-pointer = rw (e, device_pubkey) refl

  pub handle_proof-pointer : handle_proof r ≡ rd32 r.bytes dp_handle
  unfolding handle_proof
  handle_proof-pointer = rw (e, handle_proof) refl

  pub eggs_ptr-pointer : record_eggs_ptr r ≡ rd32 r.bytes dp_eggs
  unfolding record_eggs_ptr
  eggs_ptr-pointer = rw (e, record_eggs_ptr) refl

  pub epoch-pointer : epoch r ≡ rd_i64 r.bytes dp_epoch
  unfolding epoch
  epoch-pointer = rw (e, epoch) refl

  pub key-pointer :
      (p : Primitives) → key p r ≡ some (key_pointer p (rd32 r.bytes dp_handle) (index r))
  unfolding index key
  key-pointer p = rw (e, key) refl

-- What the accessors read of a pointer record that was built from arrays of 32 bytes, a u32 index and
-- an i64 epoch: each field as it was given, and the key of the identity and index.
pub new_device_pointer_lem :
    (p : Primitives) (hp : Bytes) (i : ℕ) (dev : Bytes) (t : ℤ) (by ptr : Bytes)
    → Is32 hp
    → Is32 dev
    → Is32 by
    → Is32 ptr
    → i < 2 ^ 32
    → IsI64 t
    → let r = new_device_pointer hp i dev t by ptr in
      (kind r ≡ device_pointer)
      × (handle_proof r ≡ hp)
      × (index r ≡ i)
      × (device_pubkey r ≡ dev)
      × (epoch r ≡ t)
      × (placer r ≡ by)
      × (record_eggs_ptr r ≡ ptr)
      × (key p r ≡ some (key_pointer p hp i))
unfolding index placer rd_u32 rd_i64
new_device_pointer_lem p hp i dev t by ptr hp32 dev32 by32 ptr32 small fits =
    let r = made hp i dev t by ptr in
    let e = kind-made hp i dev t by ptr in
    let handle = made-handle_proof hp i dev t by ptr hp32 dev32 by32 ptr32 in
    let place : index r ≡ i =
      ap from_le_bytes (made-index hp i dev t by ptr hp32 dev32 by32 ptr32)
      ∙ from_le_bytes-le_bytes 4 i small in
    (
      e,
      handle_proof-pointer r e ∙ handle,
      place,
      device_pubkey-pointer r e ∙ made-device hp i dev t by ptr hp32 dev32 by32 ptr32,
      epoch-pointer r e
          ∙ (ap (λ b. i64_of (from_le_bytes b)) (made-epoch hp i dev t by ptr hp32 dev32 by32 ptr32)
              ∙ i64_of-time_bytes t fits),
      made-placer hp i dev t by ptr hp32 dev32 by32 ptr32,
      eggs_ptr-pointer r e ∙ made-eggs hp i dev t by ptr hp32 dev32 by32 ptr32,
      key-pointer r e p
          ∙ ap some (ap (λ h. key_pointer p h (index r)) handle ∙ ap (key_pointer p hp) place),
    )
