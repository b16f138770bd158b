-- ===== src/Bulkhead.antt =====
-- bulkhead/.
pub mod Config
pub mod Defs
pub mod System
pub mod Slots
pub mod Results
pub mod Invariant
pub mod Calls
