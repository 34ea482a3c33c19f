-- ===== src/Payments.antt =====
-- The crate origin-payments: orders, their store and the journal.
pub mod Order
pub mod Store
pub mod Journal
pub mod Retry
pub mod Executor
pub mod Passes
