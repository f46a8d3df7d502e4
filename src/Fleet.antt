-- ===== src/Fleet.antt =====
-- src/fleet.rs: the fleet membership chain. Its ops and what is signed, the fold that validates a
-- chain, its accessors, adoption of a fetched chain, the builders, and the wire form.
pub mod Op
pub mod Signing
pub mod Members
pub mod Fold
pub mod Query
pub mod Adoption
pub mod Build
pub mod Succession
pub mod Wire
