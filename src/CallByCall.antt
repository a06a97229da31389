-- ===== src/CallByCall.antt =====
-- The programs with one manager, where its thread and signals may come between any two calls of the
-- main loop.
pub mod Commuting
pub mod Lists
pub mod Queues
pub mod Lossy
