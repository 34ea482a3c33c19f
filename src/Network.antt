-- ===== src/Network.antt =====
-- The crate origin-network: the gates in front of a relay.
pub mod Tracker
pub mod Bucket
pub mod Inbox
pub mod Address
pub mod Relay
