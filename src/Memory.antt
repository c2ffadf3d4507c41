-- ===== src/Memory.antt =====
-- The data that the parts of HeMem share: pages (src/hemem.h), the machine that they run on, and
-- the global state.
pub mod Page
pub mod Kernel
pub mod State
