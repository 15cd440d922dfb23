-- ===== src/Paging/Tests.antt =====
-- Project-2, demand paging and copy-on-write on a process of a few pages.
use cse_536_advanced_operati.Base.{
  ℕ, zero, suc, ◌+◌, ◌/◌, ◌%◌, ◌<◌, ◌≤◌, ◌≡◌, refl, inl, Bool, true, false, Option, none, some,
  List, [], ◌∷◌, ltb, ◌==◌, if◌then◌else◌, Outcome, ret, panic, arith,
}
use cse_536_advanced_operati.Vm.Memory.{Memory, page_size, kalloc, take_page, kfree}
use cse_536_advanced_operati.Vm.Table.{
  mappages, map_page, walk, walkaddr, walk_alloc, PageTable, empty_table, page_round_down,
}
use cse_536_advanced_operati.Vm.User.{
  uvmalloc, alloc_pages, copyin_page, copyin_to, uvmunmap, unmap_pages, unmap_page,
}
use cse_536_advanced_operati.Vm.User.Unmap.{IsMapped}
use cse_536_advanced_operati.Cow.Groups.{nproc, Groups, find_group}
use cse_536_advanced_operati.Paging.State.{
  kept_by_group, HeapPage, Kernel, max_heap, max_res_heap, no_address, psa_start,
}
use cse_536_advanced_operati.Paging.Swap.{
  drop_page, find_victim, victim, write_page, read_page, evict_page_to_disk, find_heap,
}
use cse_536_advanced_operati.Paging.Swap.Victim.{IsTimed, IsOldest, victim-IsOldest}
use cse_536_advanced_operati.Paging.Swap.Disk.{read_page-write_page}
use cse_536_advanced_operati.Paging.Heap.{track_heap}
use cse_536_advanced_operati.Paging.Heap.Track.{
  tracked_from, IsFreeFrom, IsUsedBelow, track_heap_lem,
}
use cse_536_advanced_operati.Paging.Fork.{Sharing, copy_on_write, uvmcopy_cow}
use cse_536_advanced_operati.Paging.Fork.Private.{IsPrivate, copy_on_write-IsPrivate}
use cse_536_advanced_operati.Paging.Fork.Page.{IsShared, IsShareable}
use cse_536_advanced_operati.Paging.Fork.Share.{uvmcopy_cow-IsShared}
use cse_536_advanced_operati.Paging.Fault.{File, page_fault_handler, heap_fault, bring_in}
use cse_536_advanced_operati.Paging.Fault.Loaded.{loaded_below}
use cse_536_advanced_operati.Paging.Fault.Resident.{page_fault_handler_bound}

-- Page 5 is mapped to 0x81000000, for the user to read and write.
abbrev five : ℕ
five = 0x2040_0017

abbrev table : PageTable
table = record { mid = λ i. i == 0; low = λ i. i == 0; leaf = λ v. if v == 5 then five else 0 }

abbrev pages : ℕ → ℕ → List ℕ
pages zero a = []
pages (suc n) a = a ∷ pages n (a + 4096)

abbrev memory : Memory
memory = record { byte = λ a. a % 256; freelist = pages 16 0x8200_0000; end_addr = 0x8010_0000 }

abbrev unused : HeapPage
unused = record { addr = no_address; last_load_time = 0; loaded = false; startblock = none }

-- Two heap pages are in memory; the one at place 1 came first.
abbrev heap : ℕ → HeapPage
heap zero = record { addr = 0x9000; last_load_time = 7; loaded = true; startblock = none }
heap (suc zero) = record { addr = 0x5000; last_load_time = 3; loaded = true; startblock = none }
heap (suc (suc i)) = unused

abbrev groups : Groups
groups zero = record { group = some 4; shmem = λ j. 0; count = 0 }
groups (suc i) = record { group = none; shmem = λ j. 0; count = 0 }

abbrev kernel : Kernel
kernel = record {
  proc = record {
    sz = 0x6000;
    pagetable = table;
    ondemand = true;
    heap_tracker = heap;
    resident_heap_pages = 2;
    cow_group = some 4;
    cow_enabled = false;
  };
  memory = memory;
  groups = groups;
  psa_tracker = λ b. b == 2;
  disk = λ b j. 0;
  ticks = 9;
}

timed : IsTimed heap 9
timed = (omega arith, on_time)
  where
    on_time : (j : ℕ) → (heap j).loaded ≡ true → (heap j).last_load_time ≤ 9
    on_time zero l = omega arith
    on_time (suc zero) l = omega arith
    on_time (suc (suc j)) l = absurd (cc (l))

victim-IsOldest_example : IsOldest heap max_heap (victim heap 9)
victim-IsOldest_example = victim-IsOldest heap 9 0 timed (omega arith) refl

chosen_is : victim heap 9 ≡ 1
unfolding victim find_victim
chosen_is = refl

read_page-write_page_example :
    (read_page 4 0 8 0x8300_0000 (write_page 4 0 8 0x8200_0000 kernel)).memory.byte
      (0x8300_0000 + 1025)
    ≡ (if ltb 1025 1024
        then kernel.memory.byte (0x8200_0000 + 1025)
        else kernel.disk (psa_start + (8 + 1025 / 1024)) (1025 % 1024))
read_page-write_page_example =
    read_page-write_page 8 0x8200_0000 0x8300_0000 kernel 1025 (omega arith)

IsMapped-five : IsMapped table 0x5000 five
IsMapped-five = record {
  inside = omega arith;
  present = refl;
  is = refl;
  valid = refl;
  is_leaf = λ e. absurd (omega (arith, e));
}

used_two : IsUsedBelow 2 heap
used_two zero b e = absurd (omega (arith, e))
used_two (suc zero) b e = absurd (omega (arith, e))
used_two (suc (suc j)) b e = absurd (omega arith)

free_two : IsFreeFrom 2 heap
free_two zero l = absurd (omega arith)
free_two (suc zero) l = absurd (omega arith)
free_two (suc (suc j)) l = refl

track_heap_lem_example :
    (new : ℕ → HeapPage) × (track_heap 0x6000 3 heap ≡ ret new)
    × ((j : ℕ) → new j ≡ tracked_from 0x6000 2 3 heap j)
track_heap_lem_example =
    track_heap_lem 0x6000 2 3 heap used_two free_two (omega arith) (omega arith)

-- The first page of the growth is tracked two pages too high.
tracked_address : (tracked_from 0x6000 2 3 heap 2).addr ≡ 0x8000
tracked_address = refl

copy_on_write-IsPrivate_example :
    (new : Kernel) × (copy_on_write 0x5123 kernel ≡ ret new)
    × IsPrivate kernel (page_round_down 0x5123) five 0x8200_0000 (pages 15 0x8200_1000) new
copy_on_write-IsPrivate_example =
    copy_on_write-IsPrivate 0x5123 five 0x8200_0000 (pages 15 0x8200_1000) kernel IsMapped-five refl
      (inl (omega arith))

abbrev two_pages : Sharing
two_pages = record {
  old = record { mid = λ i. i == 0; low = λ i. i == 0; leaf = λ v. five };
  new = empty_table;
  memory = memory;
  groups = groups;
}

group_four : find_group nproc 0 4 groups ≡ some 0
unfolding find_group
group_four = refl

shareable : (v : ℕ) → v < (0x2000 + 4095) / page_size → IsShareable two_pages v
shareable v b = record {
  present = ground arith;
  valid = ground arith;
  is_leaf = ground arith;
  vacant = refl;
}

uvmcopy_cow-IsShared_example :
    (t : Sharing) × (uvmcopy_cow kernel.proc two_pages 0x2000 ≡ ret t)
    × IsShared two_pages 0 ((0x2000 + 4095) / page_size) t
uvmcopy_cow-IsShared_example =
    uvmcopy_cow-IsShared kernel.proc 4 0 0x2000 two_pages refl group_four (omega arith) shareable
      (omega arith)

-- A fault on the heap page at place 0, which is not in the table, with no program file and as many
-- pages in memory as there may be.
abbrev no_file : Option File
no_file = none

abbrev result : Outcome (Bool × Kernel) → Bool × Kernel
result (ret w) = w
result panic = (false, kernel)

abbrev crowded : Kernel
crowded = record kernel { proc = record kernel.proc { resident_heap_pages = 100 } }

abbrev handled : Kernel
handled = (result (page_fault_handler no_file 0x9000 13 crowded)).1

heap_page_fault :
    page_fault_handler no_file 0x9000 13 crowded
    ≡ ret (result (page_fault_handler no_file 0x9000 13 crowded))
unfolding page_fault_handler heap_fault bring_in find_heap uvmalloc alloc_pages mappages map_page
    walk_alloc kalloc take_page evict_page_to_disk drop_page victim find_victim copyin_page
    copyin_to uvmunmap unmap_pages unmap_page walk kept_by_group kfree write_page walkaddr
heap_page_fault = refl

two_loaded : loaded_below max_heap heap ≡ 2
unfolding loaded_below
two_loaded = refl

page_fault_handler_bound_example :
    (loaded_below max_heap handled.proc.heap_tracker ≤ max_res_heap)
    × (loaded_below max_heap handled.proc.heap_tracker ≤ handled.proc.resident_heap_pages)
    × (handled.proc.resident_heap_pages ≤ max_res_heap)
    × IsTimed handled.proc.heap_tracker handled.ticks
page_fault_handler_bound_example =
    page_fault_handler_bound no_file 0x9000 13 crowded _ heap_page_fault timed
      (omega (arith, two_loaded)) (omega arith)
