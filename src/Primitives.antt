-- ===== src/Primitives.antt =====
-- include/cstone/primitives: leading zeros, searches, scans.
pub mod Clz
pub mod Search
pub mod Gather
