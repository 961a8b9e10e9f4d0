-- ===== src/Catalog.antt =====
-- crates/rocklake-catalog: the catalog over a key-value store.
pub mod Kv
pub mod Store
pub mod Excise
pub mod Lease
pub mod Gc
pub mod Init
pub mod Writer
pub mod Reader
pub mod Lifecycle
