-- ===== src/Threads.antt =====
-- Project-3: the user-level threading library.
pub mod State
pub mod Schedule
pub mod Life
mod Tests
