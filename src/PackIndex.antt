-- ===== src/PackIndex.antt =====
-- packidx.rs: the index of a pack, its snapshots and its tables.
pub mod Types
pub mod Changes
pub mod Index
pub mod Identity
pub mod Layout
pub mod Parts
pub mod Legacy
pub mod Wire
