-- ===== src/Pebs.antt =====
-- src/pebs.c: the policy that places pages by sampled accesses.
pub mod Lists
pub mod Invariant
pub mod Sample
pub mod Crowded
mod Tests
mod RingTests
mod IterationTests
mod CoolTests
pub mod Heat
pub mod Scan
pub mod Migrate
pub mod Alloc
pub mod Cool
pub mod Policy
pub mod Init
pub mod Interface
