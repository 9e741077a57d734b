-- ===== src/Pouw.antt =====
-- crates/tao-pouw: proof of useful work by matrix products.
pub mod Gemm
pub mod Commitment
pub mod Gate
pub mod Matmul
