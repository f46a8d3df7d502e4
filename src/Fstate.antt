-- ===== src/Fstate.antt =====
-- src/fstate.rs: the state that the devices of a fleet share, and how two copies of it merge.
pub mod Order
pub mod Merge
pub mod Survivor
pub mod Rising
pub mod Roster
pub mod Newest
