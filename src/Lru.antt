-- ===== src/Lru.antt =====
-- src/policies/lru.c: the policy that places pages by the accessed and dirty bits of their page
-- table entries (the build with ALLOC_LRU).
pub mod Lists
pub mod Scan
pub mod Route
pub mod Partition
pub mod Sorted
pub mod Shift
pub mod Steps
pub mod Kscand
pub mod Journey
pub mod Policy
pub mod Invariant
pub mod Give
pub mod Interface
mod Tests
