-- ===== src/Kernel/Console.antt =====
-- The console of scheduler/kern/console.c: ports, screen, keyboard and the ring of input.
pub mod Ports
pub mod Screen
pub mod Keyboard
pub mod Ring
pub mod Fifo
pub mod Typing
pub mod Roll
pub mod Paper
pub mod Print
pub mod Init
