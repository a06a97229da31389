-- ===== src/PipedEvent.antt =====
-- inc/PipedEvent.h: a pipe that carries at most one byte, used to wake an epoll loop.
pub mod Defs
pub mod Pending
pub mod Closing
pub mod Signalled
