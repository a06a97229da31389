-- ===== src/EventPoller.antt =====
-- inc/EventPoller.h: descriptors, and which producer and consumer stand behind each.
pub mod Defs
pub mod Watching
pub mod Registered
pub mod Calls
