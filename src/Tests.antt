-- ===== src/Tests.antt =====
-- Runs of the model at fixed inputs, and each theorem with hypotheses at an input that meets them.
mod Queues
mod Metrics
mod Pollers
mod Signals
mod Apps
mod Router
mod Networks
mod LockFree
mod Interleavings
mod TwoQueues
