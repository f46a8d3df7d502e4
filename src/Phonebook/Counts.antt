-- ===== src/Phonebook/Counts.antt =====
-- src/phonebook.rs `Record::new_identity_count` is read back by the accessors.
use fgtw.Base.{ℕ, ◌+◌, ◌^◌, ◌≤◌, ◌<◌, ◌≡◌, refl, ap, ◌∙◌, Option, none, some, arith}
use fgtw.Base.Bytes.{Bytes, Is32, le_bytes, length-le_bytes, from_le_bytes, from_le_bytes-le_bytes}
use fgtw.Base.Int.{ℤ, IsI64, i64_of}
use fgtw.Fleet.Signing.{time_bytes}
use fgtw.Primitives.{Primitives}
use fgtw.Phonebook.Keys.{key_identity}
use fgtw.Phonebook.Layout.{
  read, write, rd32, rd_u32, ic_handle, ic_count, ic_epoch, ic_witness, ic_eggs,
}
use fgtw.Phonebook.Record.{
  Record, identity_count, kind, key, from_byte, kind_tag, handle_proof, count, witness, epoch,
  record_eggs_ptr, rd_i64,
}
use fgtw.Phonebook.Mint.{blank, write_departing, new_identity_count}
use fgtw.Phonebook.Fields.{
  read-write, read-write_left, i64_of-time_bytes, IsStride, write-IsStride, length-time_bytes,
}

-- 32 bytes, where there are any.
abbrev pub IsKey? : Option Bytes → Type 0
IsKey? none = Unit {0}
IsKey? (some d) = Is32 d

-- `departing`, written or not.
pub write_departing-IsStride :
    (dev : Option Bytes) (b : Bytes) → IsKey? dev → IsStride b → IsStride (write_departing dev b)
unfolding write_departing
write_departing-IsStride none b dev32 whole = whole
write_departing-IsStride (some d) b dev32 whole = write-IsStride 77 32 d b whole dev32 (omega arith)

pub read-write_departing :
    (at n : ℕ) (dev : Option Bytes) (b : Bytes)
    → at + n ≤ 77
    → read at n (write_departing dev b) ≡ read at n b
unfolding write_departing
read-write_departing at n none b before = refl
read-write_departing at n (some d) b before = read-write_left at n 77 d b before

module _ (hp : Bytes) (n : ℕ) (t : ℤ) (by : Bytes) (dev : Option Bytes) (ptr : Bytes) where
  abbrev made : Record
  made = new_identity_count hp n t by dev ptr

  module _ (hp32 : Is32 hp) (by32 : Is32 by) (dev32 : IsKey? dev) (ptr32 : Is32 ptr) where
    abbrev b₀ : Bytes
    b₀ = blank identity_count

    abbrev b₁ : Bytes
    b₁ = write ic_handle hp b₀

    abbrev b₂ : Bytes
    b₂ = write ic_count (le_bytes 4 n) b₁

    abbrev b₃ : Bytes
    b₃ = write ic_epoch (time_bytes t) b₂

    abbrev b₄ : Bytes
    b₄ = write ic_witness by b₃

    abbrev b₅ : Bytes
    b₅ = write_departing dev b₄

    full₀ : IsStride b₀
    unfolding blank write kind_tag
    full₀ = refl

    full₁ : IsStride b₁
    full₁ = write-IsStride 1 32 hp b₀ full₀ hp32 (omega arith)

    full₂ : IsStride b₂
    full₂ = write-IsStride 33 4 (le_bytes 4 n) b₁ full₁ (length-le_bytes 4 n) (omega arith)

    full₃ : IsStride b₃
    full₃ = write-IsStride 37 8 (time_bytes t) b₂ full₂ (length-time_bytes t) (omega arith)

    full₄ : IsStride b₄
    full₄ = write-IsStride 45 32 by b₃ full₃ by32 (omega arith)

    full₅ : IsStride b₅
    full₅ = write_departing-IsStride dev b₄ dev32 full₄

    -- A field in front of the departing device's.
    front : (at m : ℕ) → at + m ≤ 77 → read at m made.bytes ≡ read at m b₄
    unfolding new_identity_count
    front at m before =
        read-write_left at m 109 ptr b₅ (omega (arith, before))
        ∙ read-write_departing at m dev b₄ before

    made-handle_proof : rd32 made.bytes ic_handle ≡ hp
    unfolding rd32
    made-handle_proof =
        front 1 32 (omega arith)
        ∙ (read-write_left 1 32 45 by b₃ (omega arith)
            ∙ (read-write_left 1 32 37 (time_bytes t) b₂ (omega arith)
                ∙ (read-write_left 1 32 33 (le_bytes 4 n) b₁ (omega arith)
                    ∙ read-write 1 32 hp b₀ hp32 (omega (arith, full₀)))))

    made-count : read ic_count 4 made.bytes ≡ le_bytes 4 n
    made-count =
        front 33 4 (omega arith)
        ∙ (read-write_left 33 4 45 by b₃ (omega arith)
            ∙ (read-write_left 33 4 37 (time_bytes t) b₂ (omega arith)
                ∙ read-write 33 4 (le_bytes 4 n) b₁ (length-le_bytes 4 n) (omega (arith, full₁))))

    made-epoch : read ic_epoch 8 made.bytes ≡ time_bytes t
    made-epoch =
        front 37 8 (omega arith)
        ∙ (read-write_left 37 8 45 by b₃ (omega arith)
            ∙ read-write 37 8 (time_bytes t) b₂ (length-time_bytes t) (omega (arith, full₂)))

    made-witness : rd32 made.bytes ic_witness ≡ by
    unfolding rd32
    made-witness = front 45 32 (omega arith) ∙ read-write 45 32 by b₃ by32 (omega (arith, full₃))

    made-eggs : rd32 made.bytes ic_eggs ≡ ptr
    unfolding rd32 new_identity_count
    made-eggs = read-write 109 32 ptr b₅ ptr32 (omega (arith, full₅))

pub kind-new_identity_count :
    (hp : Bytes) (n : ℕ) (t : ℤ) (by : Bytes) (dev : Option Bytes) (ptr : Bytes)
    → kind (new_identity_count hp n t by dev ptr) ≡ identity_count
unfolding kind from_byte new_identity_count write write_departing blank kind_tag
kind-new_identity_count hp n t by none ptr = refl
kind-new_identity_count hp n t by (some d) ptr = refl

-- The accessors of a count, by the fields they read.
module _ (r : Record) (e : kind r ≡ identity_count) where
  pub handle_proof-count : handle_proof r ≡ rd32 r.bytes ic_handle
  unfolding handle_proof
  handle_proof-count = rw (e, handle_proof) refl

  pub eggs_ptr-count : record_eggs_ptr r ≡ rd32 r.bytes ic_eggs
  unfolding record_eggs_ptr
  eggs_ptr-count = rw (e, record_eggs_ptr) refl

  pub epoch-count : epoch r ≡ rd_i64 r.bytes ic_epoch
  unfolding epoch
  epoch-count = rw (e, epoch) refl

  pub key-count : (p : Primitives) → key p r ≡ some (key_identity p (rd32 r.bytes ic_handle))
  unfolding key
  key-count p = rw (e, key) refl

-- What the accessors read of a count record that was built from arrays of 32 bytes, a u32 count and
-- an i64 epoch, whether a device departed or not: each field as it was given, and the identity's key.
pub new_identity_count_lem :
    (p : Primitives) (hp : Bytes) (n : ℕ) (t : ℤ) (by : Bytes) (dev : Option Bytes) (ptr : Bytes)
    → Is32 hp
    → Is32 by
    → IsKey? dev
    → Is32 ptr
    → n < 2 ^ 32
    → IsI64 t
    → let r = new_identity_count hp n t by dev ptr in
      (kind r ≡ identity_count)
      × (handle_proof r ≡ hp)
      × (count r ≡ n)
      × (epoch r ≡ t)
      × (witness r ≡ by)
      × (record_eggs_ptr r ≡ ptr)
      × (key p r ≡ some (key_identity p hp))
unfolding count witness rd_u32 rd_i64
new_identity_count_lem p hp n t by dev ptr hp32 by32 dev32 ptr32 small fits =
    let r = made hp n t by dev ptr in
    let e = kind-new_identity_count hp n t by dev ptr in
    let handle = made-handle_proof hp n t by dev ptr hp32 by32 dev32 ptr32 in
    (
      e,
      handle_proof-count r e ∙ handle,
      ap from_le_bytes (made-count hp n t by dev ptr hp32 by32 dev32 ptr32)
          ∙ from_le_bytes-le_bytes 4 n small,
      epoch-count r e
          ∙ (ap (λ b. i64_of (from_le_bytes b)) (made-epoch hp n t by dev ptr hp32 by32 dev32 ptr32)
              ∙ i64_of-time_bytes t fits),
      made-witness hp n t by dev ptr hp32 by32 dev32 ptr32,
      eggs_ptr-count r e ∙ made-eggs hp n t by dev ptr hp32 by32 dev32 ptr32,
      key-count r e p ∙ ap (λ h. some (key_identity p h)) handle,
    )
