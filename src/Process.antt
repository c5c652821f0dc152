-- ===== src/Process.antt =====
-- student-distrib/syscall.c: processes. Its functions on page tables stand in Paging.
pub mod Pool
pub mod Switching
pub mod Command
pub mod Execute
pub mod Halt
pub mod Schedule
pub mod Boot
pub mod Calls
