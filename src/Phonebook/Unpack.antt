-- ===== src/Phonebook/Unpack.antt =====
-- The egg blobs of src/phonebook.rs are unpacked as they were packed.
use fgtw.Base.{
  ◌+◌, ◌*◌, ◌%◌, ◌/◌, ◌<◌, ◌≡◌, refl, false, some, List, [], ◌∷◌, ◌++◌, ◌==◌, ltb, take-append,
  drop-append, length, length-append, All, arith,
}
use fgtw.Base.Bytes.{le_bytes}
use fgtw.Primitives.{Primitives, Egg, EggsRoundTrip}
use fgtw.Pq.Bundle.{is_empty}
use fgtw.Phonebook.Eggs.{list_bytes, eggs_blob, list_of, eggs_blob_lists}

-- The list's encoding fits its u16 length, and is not empty unless the list is.
abbrev pub IsPacked : (p : Primitives) → List Egg → Type 0
IsPacked p l = (length (list_bytes p l) < 65536) × ((length (list_bytes p l) == 0) ≡ is_empty l)

list_of-list_bytes :
    (p : Primitives) (l : List Egg)
    → EggsRoundTrip p
    → IsPacked p l
    → list_of p (length (list_bytes p l)) (list_bytes p l) ≡ some l
unfolding list_of list_bytes
list_of-list_bytes p [] codec packed = refl
list_of-list_bytes p (e ∷ es) codec packed = rw packed.1 (codec.eggs_round_trip (e ∷ es))

-- Lists whose encodings fit the length field are read back, in order.
pub eggs_blob_lists-eggs_blob :
    (p : Primitives) (ls : List (List Egg))
    → EggsRoundTrip p
    → All (IsPacked p) ls
    → eggs_blob_lists p (eggs_blob p ls) (length ls) ≡ some ls
unfolding eggs_blob_lists eggs_blob le_bytes
eggs_blob_lists-eggs_blob p [] codec packed = refl
eggs_blob_lists-eggs_blob p (l ∷ ls) codec (here, later) =
    let bytes = list_bytes p l in
    let n = length bytes in
    let rest = eggs_blob p ls in
    let whole : n % 256 + 256 * (n / 256 % 256) ≡ n = omega (arith, here.0) in
    let room : ltb (length (bytes ++ rest)) n ≡ false = ground (arith, length-append bytes rest) in
    rw
      (
        whole,
        room,
        take-append bytes rest,
        drop-append bytes rest,
        list_of-list_bytes p l codec here,
        eggs_blob_lists-eggs_blob p ls codec later,
      )
      refl
