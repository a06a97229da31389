-- ===== src/App8.antt =====
-- app8.cpp: two queues, each under a mutex that is only tried.
pub mod Defs
pub mod Leak
pub mod Interleaving
pub mod Idle
pub mod Balance
