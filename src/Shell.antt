-- ===== src/Shell.antt =====
-- The shell of shell/: the command line as a tree of commands, and what a process does with it.
pub mod Types
pub mod Text
pub mod Parsing
pub mod Calls
pub mod Exec
pub mod Descriptors
pub mod Running
pub mod Loop
mod Tests
