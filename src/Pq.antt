-- ===== src/Pq.antt =====
-- src/pq.rs: scheme masks and key bundles, their wire form, and the rules by which a list of
-- signatures is checked.
pub mod Scheme
pub mod Bundle
pub mod Eggs
pub mod RoundTrip
pub mod Verdicts
