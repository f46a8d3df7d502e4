-- ===== src/Traverse.antt =====
-- src/traverse: the addresses at which a peer is tried, and how a device learns its own.
pub mod Address
pub mod Candidate
pub mod Gather
pub mod Reflexive
