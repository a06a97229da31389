-- ===== src/Manager.antt =====
-- inc/IManager.h, with inc/IProducer.h and inc/IConsumer.h: the interface of a manager, and its
-- thread.
pub mod Interface
pub mod Lifecycle
pub mod Stopping
pub mod Halting
