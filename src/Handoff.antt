-- ===== src/Handoff.antt =====
-- The handoff between a manager's thread and the main thread, an atomic access at a time:
-- `_runImpl` (push, then PipedEvent::Fire) against epoll and `Produce` (PipedEvent::Consume and the
-- emptying of the queue, in the one order or the other).
pub mod Defs
pub mod Invariant
pub mod Wakeup
pub mod Sequential
pub mod Draining
pub mod Arrival
