-- ===== src/Runtime.antt =====
-- crates/tao-runtime: what the execution layer keeps between blocks.
pub mod BlockhashQueue
pub mod Bank
pub mod Genesis
