-- ===== src/Vm.antt =====
-- The kernel's memory: the allocator and the page tables.
pub mod Memory
pub mod Table
pub mod User
mod Tests
