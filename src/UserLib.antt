-- ===== src/UserLib.antt =====
-- The user library scheduler/lib: `fork` and what it uses.
pub mod Calls
pub mod Fork
pub mod Sharing
pub mod Blocks
pub mod Strings
pub mod Format
pub mod Readline
mod Tests
mod TestsFormat
