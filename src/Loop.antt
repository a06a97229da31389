-- ===== src/Loop.antt =====
-- What the loops of the mains have in common: threads that make events, and a loop that waits, takes
-- what was made and hands it over.
pub mod Defs
pub mod Calls
pub mod Keeping
