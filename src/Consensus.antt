-- ===== src/Consensus.antt =====
-- The consensus crate, crates/tao-consensus.
pub mod Bytes
pub mod BigEndian
pub mod Target
pub mod Block
pub mod Merkle
pub mod Difficulty
pub mod Pow
pub mod Chain
pub mod Models
