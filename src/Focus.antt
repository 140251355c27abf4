-- ===== src/Focus.antt =====
-- include/cstone/focus: the octree that a rank refines around its own part of the curve.
pub mod Rebalance
pub mod Enforce
pub mod RangeCount
