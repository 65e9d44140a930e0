-- ===== src/UserLib/Format.antt =====
-- The formatted output of scheduler/lib/printfmt.c, and its users in scheduler/lib.
pub mod Numbers
pub mod Orders
pub mod Errors
pub mod Run
pub mod Lift
pub mod Any
pub mod Buffer
pub mod Lines
pub mod Digits
pub mod Fuel
pub mod Ends
