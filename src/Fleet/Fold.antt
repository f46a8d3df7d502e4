-- ===== src/Fleet/Fold.antt =====
-- src/fleet.rs `fold_inner`: the walk that validates a chain, and what it guarantees.
pub mod Walk
pub mod Apply
pub mod Step
pub mod Inversion
pub mod Effects
pub mod Authority
pub mod Changes
pub mod Trace
pub mod Ratchet
pub mod Membership
pub mod Invariant
pub mod Links
pub mod Locks
pub mod Epochs
pub mod Rejoin
pub mod Empty
