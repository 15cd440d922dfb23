-- ===== src/Process.antt =====
-- Project-2: the process table of the kernel, kernel/proc.c.
pub mod State
pub mod User
pub mod Table
pub mod Family
pub mod Steps
pub mod Wait
pub mod Recycle
mod Tests
