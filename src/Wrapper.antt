-- ===== src/Wrapper.antt =====
-- inc/List.h: an object whose every method call is made under its mutex.
pub mod Defs
pub mod Calls
pub mod Exclusion
