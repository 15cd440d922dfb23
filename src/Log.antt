-- ===== src/Log.antt =====
-- The log of the file system, kernel/log.c of Project-2.
pub mod State
pub mod Commit
pub mod Transaction
mod Tests
