-- ===== src/Database.antt =====
-- crates/tao-database: what the node stores, and the commitments to it.
pub mod Smt
pub mod BlockLog
pub mod Accounts
pub mod Overlay
