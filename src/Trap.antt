-- ===== src/Trap.antt =====
-- Project-4: the trap-and-emulate virtual machine monitor.
pub mod State
pub mod Csr
pub mod Frame
pub mod Write
pub mod Pmp
pub mod Emulate
pub mod Init
mod Tests
