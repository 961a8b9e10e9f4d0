-- ===== src/Core/Keys.antt =====
-- crates/rocklake-core/src/keys.rs: the keys of the catalog and their laws.
pub mod Rows
pub mod Prefixes
pub mod System
pub mod Order
pub mod Identifiers
