-- ===== src/Ghostdag/Add.antt =====
-- `add_block` on a well-formed DAG: it does not panic, and the DAG stays well formed.
pub mod Ancestors
pub mod Build
pub mod Merge
pub mod Results
