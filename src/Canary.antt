-- ===== src/Canary.antt =====
-- The crate origin-canary: commitments to a set of canaries.
pub mod Merkle
