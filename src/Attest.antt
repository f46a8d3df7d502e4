-- ===== src/Attest.antt =====
-- src/attest.rs: whether a device resumes, joins a fleet, may mint a new identity, or waits.
pub mod Verdict
pub mod Best
pub mod Fresh
