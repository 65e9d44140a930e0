-- ===== src/Kernel.antt =====
-- The kernel of scheduler/: environments and the multi-level feedback queue.
pub mod Types
pub mod Queue
pub mod Run
pub mod Sched
pub mod Memory
pub mod Env
pub mod Syscall
pub mod Pages
pub mod Ipc
pub mod Dispatch
pub mod Trap
pub mod Load
pub mod Console
pub mod Lock
mod Tests
mod TestsConsole
