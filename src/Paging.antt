-- ===== src/Paging.antt =====
-- Project-2: demand paging, the swap area on disk and copy-on-write fork.
pub mod State
pub mod Swap
pub mod Heap
pub mod Fork
pub mod Fault
mod Tests
