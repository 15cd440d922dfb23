-- ===== src/Boot.antt =====
-- Project-1: the bootloader.
pub mod Elf
pub mod Load
pub mod Start
mod Tests
