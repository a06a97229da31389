-- ===== src/SelfLoop.antt =====
-- The main functions of app1.cpp and of app3.cpp to app11.cpp, which are alike: one manager,
-- watched by one poller as its own producer and consumer.
pub mod Defs
pub mod Delivering
pub mod Invariant
pub mod Correct
pub mod Interleaved
pub mod Settling
pub mod Calls
pub mod Transfer
