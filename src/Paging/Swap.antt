-- ===== src/Paging/Swap.antt =====
-- Project-2, kernel/pfault.c: evict_page_to_disk() and retrieve_page_from_disk().
pub mod Victim
pub mod Disk
pub mod Evict
use cse_536_advanced_operati.Base.{
  ℕ, zero, suc, ◌+◌, ◌-◌, ◌*◌, ◌/◌, ◌%◌, ◌^◌, Bool, true, false, not, ◌&&◌, Option, none, some, ltb,
  leb, ◌==◌, if◌then◌else◌, Outcome, ret, panic, ◌>>=◌, u64,
}
use cse_536_advanced_operati.Vm.Memory.{Memory, page_size, kalloc, kfree}
use cse_536_advanced_operati.Vm.User.{copyin_page, copyout, uvmunmap}
use cse_536_advanced_operati.Paging.State.{
  HeapPage, Proc, Kernel, max_heap, psa_start, psa_size, kept_by_group, put_heap, set_proc,
}

-- Whether the four blocks from `i` on are free.
abbrev pub four_free : (ℕ → Bool) → ℕ → Bool
four_free used i = not (used i) && not (used (i + 1)) && not (used (i + 2)) && not (used (i + 3))

-- The loop that looks for four free blocks, with `rounds` of them left from `i` on; `blockno` stays
-- 0 where there are none.
unfoldable pub find_block : ℕ → ℕ → (ℕ → Bool) → ℕ
find_block zero i used = 0
find_block (suc rounds) i used =
    let rest = find_block rounds (i + 4) used in if four_free used i then i else rest

-- The difference of two uint64s, and `<` on the longs with these bits.
abbrev pub age_key : ℕ → ℕ → ℕ
age_key load_time curr_time = u64 (load_time + 2 ^ 64 - curr_time)

abbrev pub long_less : ℕ → ℕ → Bool
long_less a b = ltb (u64 (a + 2 ^ 63)) (u64 (b + 2 ^ 63))

-- The loop that looks for the victim: its place, from the best key and place so far.
unfoldable pub find_victim : ℕ → ℕ → (ℕ → HeapPage) → ℕ → ℕ → ℕ → ℕ
find_victim zero i h curr largest position = position
find_victim (suc rounds) i h curr largest position =
    let key = age_key (h i).last_load_time curr in
    let better = (h i).loaded && long_less key largest in
    find_victim rounds (i + 1) h curr (if better then key else largest)
      (if better then i else position)

unfoldable pub victim : (ℕ → HeapPage) → ℕ → ℕ
victim h curr = find_victim max_heap 0 h curr 0x0fff_ffff_ffff_ffff 0

-- bread(), memmove() of 1024 bytes and bwrite() of one block, from kernel address `src`.
abbrev pub write_block : (ℕ → ℕ → ℕ) → ℕ → (ℕ → ℕ) → ℕ → ℕ → ℕ → ℕ
write_block disk b byte src k j = if k == b && ltb j 1024 then byte (src + j) else disk k j

-- The loop that writes the page: each of its rounds writes the first 1024 bytes of it to the block
-- `blockno`, and marks the block `i` places behind.
unfoldable pub write_page : ℕ → ℕ → ℕ → ℕ → Kernel → Kernel
write_page zero i blockno src k = k
write_page (suc rounds) i blockno src k = write_page rounds (i + 1) blockno src (record k {
  disk = write_block k.disk (psa_start + blockno) k.memory.byte src;
  psa_tracker = λ b. if b == blockno + i then true else k.psa_tracker b;
})

-- What is left of the eviction when the page is on the disk.
unfoldable pub drop_page : ℕ → ℕ → Kernel → Outcome Kernel
drop_page position blockno k =
    let p = k.proc in
    let page = p.heap_tracker position in
    uvmunmap (kept_by_group p k.groups) p.pagetable page.addr 1 true k.memory >>= λ w.
    ret (record k {
      memory = w.1;
      proc = record p {
        pagetable = w.0;
        heap_tracker =
            put_heap p.heap_tracker position
              (record page { loaded = false; startblock = some blockno });
        resident_heap_pages = p.resident_heap_pages - 1;
      };
    })

-- The page that kalloc() gives for the copy is not freed; without one the copy goes to address 0,
-- which stops the kernel. The result of copyin() is not looked at.
unfoldable pub evict_page_to_disk : Kernel → Outcome Kernel
evict_page_to_disk k =
    let blockno = find_block (psa_size / 4) 0 k.psa_tracker in
    let position = victim k.proc.heap_tracker k.ticks in
    let addr = (k.proc.heap_tracker position).addr in
    let (kernel_memory, taken) = kalloc k.memory in
    elim kernel_memory [
      | none ↦ panic
      | some pa ↦ copyin_page k.proc.pagetable taken pa addr >>= λ copied.
          drop_page position blockno (write_page 4 0 blockno pa (record k { memory = copied.1 }))
    ]

-- The first entry of the tracker with the address.
unfoldable pub find_heap : ℕ → ℕ → (ℕ → HeapPage) → ℕ → Option ℕ
find_heap zero i h uvaddr = none
find_heap (suc rounds) i h uvaddr =
    let rest = find_heap rounds (i + 1) h uvaddr in if uvaddr == (h i).addr then some i else rest

-- The loop that reads the four blocks into the kernel page.
unfoldable pub read_page : ℕ → ℕ → ℕ → ℕ → Kernel → Kernel
read_page zero i startblock dst k = k
read_page (suc rounds) i startblock dst k = read_page rounds (i + 1) startblock dst (record k {
  memory = record k.memory {
    byte = λ a.
        if leb (dst + i * 1024) a && ltb a (dst + i * 1024 + 1024)
        then k.disk (psa_start + (startblock + i)) (a - (dst + i * 1024))
        else k.memory.byte a;
  };
  psa_tracker = λ b. if b == startblock + i then false else k.psa_tracker b;
})

-- An entry without a block stands for block -1, which is outside the tracker: the handler never
-- asks for it.
unfoldable pub retrieve_from : ℕ → ℕ → Kernel → Outcome Kernel
retrieve_from uvaddr place k =
    let (kernel_page, taken) = kalloc k.memory in
    elim kernel_page [
      | none ↦ panic
      | some pa ↦ elim (k.proc.heap_tracker place).startblock [
        | none ↦ panic
        | some startblock ↦
            let filled = read_page 4 0 startblock pa (record k { memory = taken }) in
            copyout filled.proc.pagetable filled.memory uvaddr pa page_size >>= λ copied.
            kfree pa copied.1 >>= λ freed. ret (record filled { memory = freed })
      ]
    ]

unfoldable pub retrieve_page_from_disk : ℕ → Kernel → Outcome Kernel
retrieve_page_from_disk uvaddr k = elim (find_heap max_heap 0 k.proc.heap_tracker uvaddr) [
  | none ↦ panic
  | some place ↦ retrieve_from uvaddr place k
]
