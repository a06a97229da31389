-- ===== src/Main.antt =====
-- main.cpp: ManagerA and ManagerB send to ManagerC, whose events `main` gives back by their type.
pub mod Defs
pub mod Hub
pub mod Flow
pub mod Calls
