-- ===== src/App2.antt =====
-- app2.cpp: two managers, each the consumer of the other.
pub mod Defs
pub mod Exchange
pub mod Calls
