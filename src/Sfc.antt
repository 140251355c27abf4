-- ===== src/Sfc.antt =====
-- include/cstone/sfc: space-filling-curve keys.
pub mod Range
pub mod Power
pub mod Prefix
pub mod Span
pub mod Box
pub mod Curve
pub mod Morton
pub mod Hilbert
