-- ===== src/Paging/Fault.antt =====
-- Project-2, kernel/pfault.c: page_fault_handler(), with loadseg() and flags2perm() of
-- kernel/exec.c. The file of the program stands for what namei() and readi() give.
pub mod Loaded
mod Counted
pub mod Resident
use cse_536_advanced_operati.Base.{
  ℕ, zero, suc, ◌+◌, ◌-◌, ◌*◌, ◌/◌, ◌%◌, ◌^◌, Bool, true, false, not, ◌&&◌, ◌||◌, Option, none,
  some, ltb, leb, ◌==◌, if◌then◌else◌, Outcome, ret, panic, ◌>>=◌, u64, has_bit,
}
use cse_536_advanced_operati.Vm.Memory.{Memory, page_size}
use cse_536_advanced_operati.Vm.Table.{PageTable, walkaddr, page_round_down}
use cse_536_advanced_operati.Vm.User.{uvmalloc}
use cse_536_advanced_operati.Boot.Elf.{read_number}
use cse_536_advanced_operati.Paging.State.{
  HeapPage, Proc, Kernel, max_heap, max_res_heap, kept_by_group, put_heap, set_proc,
}
use cse_536_advanced_operati.Paging.Swap.{evict_page_to_disk, retrieve_page_from_disk, find_heap}
use cse_536_advanced_operati.Paging.Fork.{copy_on_write}

pub record File : Type 0 where
  pub size : ℕ
  pub content : ℕ → ℕ

-- How many bytes readi() copies of `n` from the uint `off` on.
unfoldable pub readi_count : File → ℕ → ℕ → ℕ
readi_count f off n =
    if ltb f.size off || leb (2 ^ 32) (off + n)
    then 0
    else if ltb f.size (off + n)
    then f.size - off
    else n

abbrev pub elfhdr_size : ℕ
elfhdr_size = 64

abbrev pub proghdr_size : ℕ
proghdr_size = 56

abbrev pub elf_magic : ℕ
elf_magic = 0x464c_457f

unfoldable pub flags2perm : ℕ → ℕ
flags2perm flags = (if has_bit 0 flags then 8 else 0) + (if has_bit 1 flags then 4 else 0)

-- The program header at `off`.
pub record Segment : Type 0 where
  pub kind : ℕ
  pub flags : ℕ
  pub off : ℕ
  pub vaddr : ℕ
  pub filesz : ℕ
  pub memsz : ℕ

unfoldable pub read_segment : File → ℕ → Segment
read_segment f off = record {
  kind = read_number f.content off 4;
  flags = read_number f.content (off + 4) 4;
  off = read_number f.content (off + 8) 8;
  vaddr = read_number f.content (off + 16) 8;
  filesz = read_number f.content (off + 32) 8;
  memsz = read_number f.content (off + 40) 8;
}

pub data Search : Type 0 where
  bad : Search
  no_segment : Search
  found : Segment → Search

-- The tests on a header; `none` goes on to the header behind it.
unfoldable pub check_segment : Segment → ℕ → Option Search
check_segment ph addr =
    if not (ph.kind == 1)
    then none
    else if ltb ph.memsz ph.filesz
    then some bad
    else if ltb (u64 (ph.vaddr + ph.memsz)) ph.vaddr
    then some bad
    else if not (ph.vaddr % page_size == 0)
    then some bad
    else if leb ph.vaddr addr && ltb addr (u64 (ph.vaddr + ph.memsz))
    then some (found ph)
    else none

-- The loop over the program headers, with `rounds` of them left from `off` on.
unfoldable pub find_segment : ℕ → ℕ → File → ℕ → Search
find_segment zero off f addr = no_segment
find_segment (suc rounds) off f addr =
    let rest = find_segment rounds ((off + proghdr_size) % 2 ^ 32) f addr in
    if not (readi_count f off proghdr_size == proghdr_size)
    then bad
    else elim (check_segment (read_segment f off) addr) [ none ↦ rest | some s ↦ s ]

unfoldable pub search_program : File → ℕ → Search
search_program f addr =
    if not (readi_count f 0 elfhdr_size == elfhdr_size)
    then bad
    else if not (read_number f.content 0 4 == elf_magic)
    then bad
    else find_segment (read_number f.content 56 2) (read_number f.content 32 8 % 2 ^ 32) f addr

-- The loop of loadseg(); `false` is the result -1.
unfoldable pub load_pages : ℕ → ℕ → PageTable → ℕ → File → ℕ → ℕ → Memory → Outcome (Bool × Memory)
load_pages zero i pt va f offset sz m = ret (true, m)
load_pages (suc rounds) i pt va f offset sz m = walkaddr pt (u64 (va + i)) >>= λ pa.
    let n = if ltb (sz - i) page_size then sz - i else page_size in
    let off = (offset + i) % 2 ^ 32 in
    let got = readi_count f off n in
    let filled = record m {
      byte = λ a. if leb pa a && ltb a (pa + got) then f.content (off + (a - pa)) else m.byte a;
    } in
    let rest = load_pages rounds (i + page_size) pt va f offset sz filled in
    if pa == 0 then panic else if got == n then rest else ret (false, filled)

-- The arguments of type uint are the low 32 bits.
unfoldable pub loadseg : PageTable → ℕ → File → ℕ → ℕ → Memory → Outcome (Bool × Memory)
loadseg pt va f offset sz m =
    load_pages ((sz % 2 ^ 32 + 4095) / page_size) 0 pt va f (offset % 2 ^ 32) (sz % 2 ^ 32) m

-- The segment is allocated, whatever comes of it, and read.
unfoldable pub load_segment : File → Segment → Kernel → Outcome (Bool × Kernel)
load_segment f ph k =
    let p = k.proc in
    uvmalloc (kept_by_group p k.groups) p.pagetable ph.vaddr (u64 (ph.vaddr + ph.memsz))
      (flags2perm ph.flags) k.memory
    >>= λ w. loadseg w.1 ph.vaddr f ph.off ph.filesz w.2 >>= λ read.
        ret (read.0, record k { memory = read.1; proc = record p { pagetable = w.1 } })

-- The part of the handler for pages of the program. `false` goes to the label `bad`, where the page
-- table is freed, or returns at once where the file is not found.
unfoldable pub program_fault : Option File → ℕ → Kernel → Outcome (Bool × Kernel)
program_fault none addr k = ret (false, k)
program_fault (some f) addr k = elim (search_program f addr) [
  | bad ↦ ret (false, k)
  | no_segment ↦ ret (true, k)
  | found ph ↦ load_segment f ph k
]

-- The page at `place` of the tracker is in memory.
unfoldable pub mark_loaded : ℕ → Kernel → Kernel
mark_loaded place k =
    let p = k.proc in
    set_proc k (record p {
      heap_tracker =
          put_heap p.heap_tracker place
            (record (p.heap_tracker place) { last_load_time = k.ticks; loaded = true });
    })

unfoldable pub count_page : Kernel → Kernel
count_page k =
    let p = k.proc in set_proc k (record p { resident_heap_pages = p.resident_heap_pages + 1 })

-- From the label `heap_handle` on, with the room for the page made.
unfoldable pub bring_in : ℕ → ℕ → Bool → Kernel → Outcome Kernel
bring_in place addr load_from_disk k =
    let p = k.proc in
    uvmalloc (kept_by_group p k.groups) p.pagetable addr (addr + page_size) 4 k.memory >>= λ w.
    let marked =
      mark_loaded place (record k { memory = w.2; proc = record p { pagetable = w.1 } }) in
    if w.0 == 0
    then panic
    else ((if load_from_disk then retrieve_page_from_disk addr marked else ret marked) >>= λ k'.
        ret (count_page k'))

unfoldable pub heap_fault : ℕ → ℕ → Kernel → Outcome Kernel
heap_fault place addr k =
    let load_from_disk : Bool = elim (k.proc.heap_tracker place).startblock [
      | none ↦ false
      | some _ ↦ true
    ] in
    (if k.proc.resident_heap_pages == max_res_heap then evict_page_to_disk k else ret k) >>= λ k'.
    bring_in place addr load_from_disk k'

unfoldable pub page_fault_handler : Option File → ℕ → ℕ → Kernel → Outcome (Bool × Kernel)
page_fault_handler file stval scause k =
    let addr = page_round_down stval in
    if k.proc.cow_enabled && scause == 15
    then (copy_on_write stval k >>= λ k'. ret (true, k'))
    else elim (find_heap max_heap 0 k.proc.heap_tracker addr) [
      | none ↦ program_fault file addr k
      | some place ↦ heap_fault place addr k >>= λ k'. ret (true, k')
    ]
