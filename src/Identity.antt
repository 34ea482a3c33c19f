-- ===== src/Identity.antt =====
-- The crate origin-identity: capabilities, and the delegation of them.
pub mod Capability
pub mod Delegation
