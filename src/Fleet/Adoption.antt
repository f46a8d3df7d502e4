-- ===== src/Fleet/Adoption.antt =====
-- src/fleet.rs `extends`, `adoption`: how a fetched chain relates to the one last adopted.
pub mod Verdict
pub mod Laws
