-- ===== src/Fleet/Build.antt =====
-- src/fleet.rs: the builders, which sign an op and append it to a chain.
pub mod Signer
pub mod Ops
pub mod Append
pub mod Lock
pub mod Found
pub mod Join
