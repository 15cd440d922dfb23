-- ===== src/Cow.antt =====
-- Project-2, kernel/cow.c: the bookkeeping of copy-on-write groups.
pub mod Groups
mod Tests
