-- ===== src/Domain.antt =====
-- include/cstone/domain: what the ranks exchange.
pub mod IndexRanges
pub mod Layout
pub mod Decomposition
