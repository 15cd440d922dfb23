-- ===== src/Boot/Load.antt =====
-- Project-1, bootloader/load.c and bootloader/start.c: kernel_copy() and the loops that copy a
-- kernel from its disk to the address where it runs. Memory is a function from addresses to bytes.
pub mod Copied
use cse_536_advanced_operati.Base.{
  ℕ, zero, suc, ◌+◌, ◌-◌, ◌*◌, ◌/◌, ◌%◌, ◌^◌, ◌&&◌, leb, ltb, ◌==◌, if◌then◌else◌, u64, Outcome,
  ret, panic, ◌>>=◌,
}
use cse_536_advanced_operati.Boot.Elf.{
  Kernel, normal, recovery, disk, find_kernel_load_addr, find_kernel_size,
}

abbrev pub bsize : ℕ
bsize = 1024

-- The size of the file system in blocks.
abbrev pub fssize : ℕ
fssize = 2000

-- The blocks of the first page, which holds the ELF headers and is not copied.
abbrev pub skip_memory : ℕ
skip_memory = 4096 / bsize

-- The memory with `n` bytes of `content` from `dst` on.
unfoldable pub put_bytes : (ℕ → ℕ) → ℕ → ℕ → (ℕ → ℕ) → ℕ → ℕ
put_bytes byte dst n content a = if leb dst a && ltb a (dst + n) then content (a - dst) else byte a

-- The data of the buffer.
unfoldable pub kernel_copy : Kernel → ℕ → (ℕ → ℕ) → Outcome (ℕ → ℕ)
kernel_copy k blockno byte =
    if leb fssize blockno then panic else ret (λ i. byte (disk k + blockno * bsize + i))

-- Where block `p` goes. The difference is one of uint64s.
abbrev pub block_address : ℕ → ℕ → ℕ
block_address load p = u64 (load + u64 ((p + 2 ^ 64 - skip_memory) * bsize))

-- The loop over the whole blocks, with `rounds` of them left from `p` on.
unfoldable pub copy_blocks : Kernel → ℕ → ℕ → ℕ → (ℕ → ℕ) → Outcome (ℕ → ℕ)
copy_blocks k load zero p byte = ret byte
copy_blocks k load (suc rounds) p byte = kernel_copy k p byte >>= λ content.
    copy_blocks k load rounds (p + 1) (put_bytes byte (block_address load p) bsize content)

-- The bytes behind the last whole block.
unfoldable pub copy_balance : Kernel → ℕ → ℕ → (ℕ → ℕ) → Outcome (ℕ → ℕ)
copy_balance k load size byte =
    if size % bsize == 0
    then ret byte
    else kernel_copy k (size / bsize) byte >>= λ content.
        ret (put_bytes byte (block_address load (size / bsize)) (size % bsize) content)

-- The part of start() that loads the normal kernel.
unfoldable pub load_normal : (ℕ → ℕ) → Outcome (ℕ → ℕ)
load_normal byte =
    let load = find_kernel_load_addr normal byte in
    let size = find_kernel_size normal byte in
    copy_blocks normal load (size / bsize - skip_memory) skip_memory byte >>= λ copied.
    copy_balance normal load size copied

-- setup_recovery_kernel(), which copies whole blocks alone.
unfoldable pub load_recovery : (ℕ → ℕ) → Outcome (ℕ → ℕ)
load_recovery byte =
    let load = find_kernel_load_addr recovery byte in
    let size = find_kernel_size recovery byte in
    copy_blocks recovery load (size / bsize - skip_memory) skip_memory byte
