-- ===== src/AutoId.antt =====
-- inc/AutoId.h: every producer and consumer draws its number from one static atomic counter.
pub mod Defs
pub mod Distinct
