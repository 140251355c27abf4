-- ===== src/Traversal.antt =====
-- include/cstone/traversal: overlaps.
pub mod Overlap
pub mod Boxes
