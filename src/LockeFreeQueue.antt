-- ===== src/LockeFreeQueue.antt =====
-- inc/LockeFreeQueue.h: a linked list that any number of threads append to and one thread empties.
pub mod Defs
pub mod Invariant
pub mod Producing
pub mod Consuming
pub mod Correct
pub mod Calls
pub mod Fifo
pub mod Sequences
pub mod Destroying
