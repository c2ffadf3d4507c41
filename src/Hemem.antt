-- ===== src/Hemem.antt =====
-- src/hemem.c: page tracking, migration between the tiers, and the handlers of page faults.
pub mod Pages
pub mod Policy
pub mod Tracked
pub mod Migrate
pub mod Fault
pub mod Mapping
mod Tests
