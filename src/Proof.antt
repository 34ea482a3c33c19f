-- ===== src/Proof.antt =====
-- The crate origin-proof: membership proofs.
pub mod Mmr
