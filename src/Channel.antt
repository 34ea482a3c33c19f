-- ===== src/Channel.antt =====
-- The crate origin-channel: the guards of an encrypted session.
pub mod Usage
pub mod Replay
pub mod Codec
pub mod Message
pub mod Negotiation
pub mod Ratchet
pub mod Session
