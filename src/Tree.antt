-- ===== src/Tree.antt =====
-- include/cstone/tree: cornerstone leaf arrays and the octree above them.
pub mod Leaves
pub mod Linked
pub mod Csarray
pub mod Counts
pub mod Spanning
