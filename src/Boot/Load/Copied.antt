-- ===== src/Boot/Load/Copied.antt =====
-- Project-1, bootloader/start.c: what a copied kernel is in memory.
use cse_536_advanced_operati.Base.{
  ℕ, zero, suc, ◌+◌, ◌-◌, ◌*◌, ◌/◌, ◌%◌, ◌^◌, ◌<◌, ◌≤◌, ◌≡◌, ◌≢◌, ◌∙◌, refl, ap, subst, ◌&&◌, leb,
  ltb, ◌==◌, if◌then◌else◌, ret, arith, false, ℕ_discrete,
}
use cse_536_advanced_operati.Boot.Elf.{
  Kernel, normal, recovery, disk, find_kernel_load_addr, find_kernel_size,
}
use cse_536_advanced_operati.Boot.Load.{
  bsize, fssize, put_bytes, kernel_copy, block_address, copy_blocks, copy_balance, load_normal,
  load_recovery,
}

-- Memory `new` is `old` with the first `n` bytes behind the first page of the disk copied to `load`
-- and on.
abbrev pub IsCopied : Kernel → ℕ → ℕ → (ℕ → ℕ) → (ℕ → ℕ) → Type 0
IsCopied k load n old new =
    (a : ℕ)
    → new a ≡ (if leb load a && ltb a (load + n) then old (disk k + 4096 + (a - load)) else old a)

block_address_lem :
    (load p : ℕ) → 4 ≤ p → load + p * bsize < 2 ^ 64 → block_address load p ≡ load + (p - 4) * bsize
block_address_lem load p l b = omega arith

kernel_copy_lem :
    (k : Kernel) (p : ℕ) (byte : ℕ → ℕ)
    → p < fssize
    → kernel_copy k p byte ≡ ret (λ i. byte (disk k + p * bsize + i))
unfolding kernel_copy
kernel_copy_lem k p byte b = ground arith

disk_small : (k : Kernel) → disk k < 2 ^ 63
unfolding disk
disk_small normal = omega arith
disk_small recovery = omega arith

-- The bytes on the disk lie above the copy, so they are still the old ones.
disk_kept :
    (k : Kernel) (load n : ℕ) (old byte : ℕ → ℕ) (i : ℕ)
    → load + n ≤ disk k
    → IsCopied k load n old byte
    → byte (disk k + i) ≡ old (disk k + i)
disk_kept k load n old byte i b h = h (disk k + i) ∙ ground arith

put_block-IsCopied :
    (k : Kernel) (load p n : ℕ) (old byte : ℕ → ℕ)
    → 4 ≤ p
    → load + p * bsize + n ≤ disk k
    → IsCopied k load ((p - 4) * bsize) old byte
    → IsCopied k load
        ((p - 4) * bsize + n)
        old
        (put_bytes byte (load + (p - 4) * bsize) n (λ i. byte (disk k + p * bsize + i)))
unfolding put_bytes
put_block-IsCopied k load p n old byte l b h a =
    let at = h a in
    let i : ℕ = a - (load + (p - 4) * bsize) in
    let kept : byte (disk k + p * bsize + i) ≡ old (disk k + p * bsize + i) =
      subst (λ j. byte j ≡ old j) (omega arith)
        (disk_kept k load ((p - 4) * bsize) old byte (p * bsize + i) (omega arith) h) in
    let same : load + (p - 4) * bsize ≤ a
        → old (disk k + p * bsize + i) ≡ old (disk k + 4096 + (a - load)) =
      λ q. ap old (omega arith) in
    ground arith

-- One round of the loop.
copy_blocks-suc :
    (k : Kernel) (load rounds p : ℕ) (byte : ℕ → ℕ)
    → 4 ≤ p
    → p < fssize
    → load + p * bsize ≤ disk k
    → copy_blocks k load (suc rounds) p byte
      ≡ copy_blocks k load rounds
          (p + 1)
          (put_bytes byte (load + (p - 4) * bsize) bsize (λ i. byte (disk k + p * bsize + i)))
unfolding copy_blocks
copy_blocks-suc k load rounds p byte l f b =
    let small = disk_small k in
    rw (kernel_copy_lem k p byte f, block_address_lem load p l (omega arith)) refl

IsCopied-same :
    (k : Kernel) (load n m : ℕ) (old byte : ℕ → ℕ)
    → n ≡ m
    → IsCopied k load n old byte
    → IsCopied k load m old byte
IsCopied-same k load n m old byte e h = subst (λ j. IsCopied k load j old byte) e h

-- The loop returns, and every block that it went over is copied.
copy_blocks-IsCopied :
    (k : Kernel) (load rounds p : ℕ) (old byte : ℕ → ℕ)
    → 4 ≤ p
    → p + rounds ≤ fssize
    → load + (p + rounds) * bsize ≤ disk k
    → IsCopied k load ((p - 4) * bsize) old byte
    → (new : ℕ → ℕ) × (copy_blocks k load rounds p byte ≡ ret new)
      × IsCopied k load ((p + rounds - 4) * bsize) old new
unfolding copy_blocks
copy_blocks-IsCopied k load zero p old byte l f b h = (
  byte,
  refl,
  IsCopied-same k load ((p - 4) * bsize) ((p + 0 - 4) * bsize) old byte (omega arith) h,
)
copy_blocks-IsCopied k load (suc rounds) p old byte l f b h =
    let stored : ℕ → ℕ =
      put_bytes byte (load + (p - 4) * bsize) bsize (λ i. byte (disk k + p * bsize + i)) in
    let step = put_block-IsCopied k load p bsize old byte l (omega arith) h in
    let step_on = IsCopied-same k load _ ((p + 1 - 4) * bsize) old stored (omega arith) step in
    let (new, returns, copied) =
      copy_blocks-IsCopied k load rounds (p + 1) old stored (omega arith) (omega arith)
        (omega arith) step_on in
    (
      new,
      copy_blocks-suc k load rounds p byte l (omega arith) (omega arith) ∙ returns,
      IsCopied-same k load _ ((p + suc rounds - 4) * bsize) old new (omega arith) copied,
    )

nothing-IsCopied : (k : Kernel) (load : ℕ) (old : ℕ → ℕ) → IsCopied k load 0 old old
nothing-IsCopied k load old a = ground arith

copy_balance_rest :
    (k : Kernel) (load size : ℕ) (byte : ℕ → ℕ)
    → 4 ≤ size / bsize
    → size / bsize < fssize
    → load + size ≤ disk k
    → size % bsize ≢ 0
    → copy_balance k load size byte
      ≡ ret (
          put_bytes byte
            (load + (size / bsize - 4) * bsize)
            (size % bsize)
            (λ i. byte (disk k + size / bsize * bsize + i)))
unfolding copy_balance
copy_balance_rest k load size byte l f b n =
    let small = disk_small k in
    let uneven : (size % bsize == 0) ≡ false = ground arith in
    rw
      (
        uneven,
        kernel_copy_lem k (size / bsize) byte f,
        block_address_lem load (size / bsize) l (omega arith),
      )
      refl

copy_balance-IsCopied :
    (k : Kernel) (load size : ℕ) (old byte : ℕ → ℕ)
    → 4 ≤ size / bsize
    → size / bsize < fssize
    → load + size ≤ disk k
    → IsCopied k load ((size / bsize - 4) * bsize) old byte
    → (new : ℕ → ℕ) × (copy_balance k load size byte ≡ ret new)
      × IsCopied k load (size - 4096) old new
unfolding copy_balance
copy_balance-IsCopied k load size old byte l f b h = elim (ℕ_discrete (size % bsize) 0) [
  | yes e ↦ (byte, ground arith, IsCopied-same k load _ (size - 4096) old byte (omega arith) h)
  | no n ↦
      let small = disk_small k in
      let stored : ℕ → ℕ =
        put_bytes byte (load + (size / bsize - 4) * bsize) (size % bsize)
          (λ i. byte (disk k + size / bsize * bsize + i)) in
      let step =
        put_block-IsCopied k load (size / bsize) (size % bsize) old byte l (omega arith) h in
      (
        stored,
        copy_balance_rest k load size byte l f b n,
        IsCopied-same k load _ (size - 4096) old stored (omega arith) step,
      )
]

-- Where the normal kernel has at least one page and less than 2000 blocks and is copied below its
-- disk, load_normal() returns, the bytes of the kernel behind its first page are at its address in
-- memory, all of them, and all other memory is as it was.
pub load_normal-IsCopied :
    (byte : ℕ → ℕ)
    → 4096 ≤ find_kernel_size normal byte
    → find_kernel_size normal byte < fssize * bsize
    → find_kernel_load_addr normal byte + find_kernel_size normal byte ≤ disk normal
    → (new : ℕ → ℕ) × (load_normal byte ≡ ret new)
      × IsCopied normal
          (find_kernel_load_addr normal byte)
          (find_kernel_size normal byte - 4096)
          byte
          new
unfolding load_normal
load_normal-IsCopied byte l f b =
    let load = find_kernel_load_addr normal byte in
    let size = find_kernel_size normal byte in
    let (mid, returns, copied) =
      copy_blocks-IsCopied normal load (size / bsize - 4) 4 byte byte (omega arith) (omega arith)
        (omega arith) (nothing-IsCopied normal load byte) in
    let copied_on =
      IsCopied-same normal load _ ((size / bsize - 4) * bsize) byte mid (omega arith) copied in
    let (new, again, all) =
      copy_balance-IsCopied normal load size byte mid (omega arith) (omega arith) (omega arith)
        copied_on in
    (new, rw returns again, all)

-- Where the recovery kernel has at least one page and at most 2000 blocks and is copied below its disk,
-- setup_recovery_kernel() returns and copies the whole blocks alone: the bytes of the last block
-- that it does not fill stay behind.
pub load_recovery-IsCopied :
    (byte : ℕ → ℕ)
    → 4096 ≤ find_kernel_size recovery byte
    → find_kernel_size recovery byte ≤ fssize * bsize
    → find_kernel_load_addr recovery byte + find_kernel_size recovery byte ≤ disk recovery
    → (new : ℕ → ℕ) × (load_recovery byte ≡ ret new)
      × IsCopied recovery
          (find_kernel_load_addr recovery byte)
          (find_kernel_size recovery byte - 4096 - find_kernel_size recovery byte % bsize)
          byte
          new
unfolding load_recovery
load_recovery-IsCopied byte l f b =
    let load = find_kernel_load_addr recovery byte in
    let size = find_kernel_size recovery byte in
    let (new, returns, copied) =
      copy_blocks-IsCopied recovery load (size / bsize - 4) 4 byte byte (omega arith) (omega arith)
        (omega arith) (nothing-IsCopied recovery load byte) in
    (
      new,
      returns,
      IsCopied-same recovery load _ (size - 4096 - size % bsize) byte new (omega arith) copied,
    )
