-- ===== src/Attest.antt =====
-- The crate origin-attest: the revocation journal and the handshake cookies.
pub mod Revocation
pub mod Cookie
