-- ===== src/Boot/Elf.antt =====
-- Project-1, bootloader/elf.c: what the bootloader reads in the ELF headers of the two kernels.
use cse_536_advanced_operati.Base.{ℕ, zero, suc, ◌+◌, ◌*◌, u64}

pub data Kernel : Type 0 where
  normal : Kernel
  recovery : Kernel

-- RAMDISK or RECOVERYDISK
unfoldable pub disk : Kernel → ℕ
disk normal = 0x8400_0000
disk recovery = 0x8450_0000

-- A little-endian number of `n` bytes.
unfoldable pub read_number : (ℕ → ℕ) → ℕ → ℕ → ℕ
read_number byte a zero = 0
read_number byte a (suc n) = byte a + 256 * read_number byte (a + 1) n

unfoldable pub find_kernel_load_addr : Kernel → (ℕ → ℕ) → ℕ
find_kernel_load_addr k byte =
    let phoff = read_number byte (disk k + 32) 8 in
    let ehsize = read_number byte (disk k + 52) 2 in
    let kernel_phdr = u64 (disk k + ehsize + phoff) in read_number byte (kernel_phdr + 16) 8

unfoldable pub find_kernel_size : Kernel → (ℕ → ℕ) → ℕ
find_kernel_size k byte =
    let shoff = read_number byte (disk k + 40) 8 in
    let shentsize = read_number byte (disk k + 58) 2 in
    let shnum = read_number byte (disk k + 60) 2 in u64 (shoff + shentsize * shnum)

unfoldable pub find_kernel_entry_addr : Kernel → (ℕ → ℕ) → ℕ
find_kernel_entry_addr k byte = read_number byte (disk k + 24) 8
