-- ===== src/Tests.antt =====
-- Concrete instances of what the development takes as arguments, and each property applied to one.
mod Memory
mod Format
mod Messages
mod Data
mod Core
mod Collection
mod Sessions
mod Listings
mod Diffs
mod Changes
mod Metadata
mod Floats
mod Pruning
mod Pgwire
mod Excision
