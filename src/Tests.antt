-- ===== src/Tests.antt =====
-- Tests of the definitions on small inputs, and the theorems at inputs that meet their hypotheses.
pub mod Toy
pub mod Fold
pub mod Chains
pub mod Succession
pub mod Wire
pub mod Build
pub mod Attest
pub mod Traverse
pub mod Pq
pub mod Fstate
pub mod Phonebook
pub mod Registry
pub mod Codec
