-- ===== src/Phonebook.antt =====
-- src/phonebook.rs: the peer registry. Records of a fixed stride live in slices, at slots that their
-- keys name; an identity's registry is a count and its device pointers, converged on the fold.
pub mod Keys
pub mod Order
pub mod Layout
pub mod Record
pub mod Slice
pub mod Mint
pub mod Eggs
pub mod Unpack
pub mod Fields
pub mod Pointers
pub mod Counts
pub mod Verify
pub mod Registry
