-- ===== src/Queues.antt =====
-- The queue classes that the applications take from other projects, as interfaces: the calls that
-- the applications make, and what the libraries document of them. Their code is not modelled.
pub mod Drain
pub mod ReaderWriter
pub mod Atomic
pub mod Spsc
