-- ===== src/App12.antt =====
-- app12.cpp: three managers, joined by a router.
pub mod Events
pub mod Router
pub mod Deliveries
pub mod Managers
pub mod Main
pub mod Wiring
pub mod Routing
pub mod Effects
pub mod Emptying
pub mod Sending
pub mod Owing
pub mod Keeping
pub mod Starting
pub mod Offers
pub mod Calls
pub mod Arrivals
