-- ===== src/Prometheus.antt =====
-- Where the counts go: inc/IPrometheus.h, its implementation inc/promethues-simple-server.h, and the
-- counters that Run of inc/IManager.h registers.
pub mod Interface
pub mod Library
pub mod Server
pub mod Serving
pub mod Metrics
pub mod Names
pub mod Registering
pub mod Metering
pub mod Counting
pub mod Lifetime
