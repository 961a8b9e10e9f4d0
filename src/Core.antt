-- ===== src/Core.antt =====
-- crates/rocklake-core: numbers as bytes, value envelopes, keys, visibility, counters, paths.
pub mod Result
pub mod BigEndian
pub mod Tags
pub mod Values
pub mod Keys
pub mod Mvcc
pub mod Counters
pub mod Path
pub mod Text
pub mod Types
pub mod Rows
