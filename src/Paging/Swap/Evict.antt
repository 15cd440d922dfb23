-- ===== src/Paging/Swap/Evict.antt =====
-- Project-2, kernel/pfault.c: what evict_page_to_disk() changes.
use cse_536_advanced_operati.Base.{
  ℕ, ◌+◌, ◌/◌, ◌<◌, ◌≤◌, ◌≡◌, ◌≢◌, false, some, List, ◌∷◌, ◌&&◌, ltb, ◌==◌, if◌then◌else◌,
}
use cse_536_advanced_operati.Vm.Memory.{Memory, phystop}
use cse_536_advanced_operati.Vm.Table.Entries.{entry}
use cse_536_advanced_operati.Paging.State.{HeapPage, Kernel, psa_start, psa_size, put_heap}
use cse_536_advanced_operati.Paging.Swap.{find_block, victim}

-- The places that the two searches find.
abbrev pub chosen : Kernel → HeapPage
chosen k = k.proc.heap_tracker (victim k.proc.heap_tracker k.ticks)

abbrev pub block : Kernel → ℕ
block k = find_block (psa_size / 4) 0 k.psa_tracker

-- A physical page of the user that kfree() takes.
pub record IsUserPage (m : Memory) (pa : ℕ) : Type 0 where
  pub some_page : pa ≢ 0
  pub above : m.end_addr ≤ pa
  pub below : pa < phystop

-- The first 1024 bytes of page `pa` are on the disk and all other blocks are as they were; the page
-- is unmapped, and it takes the place of the page `copy` in the free list.
pub record IsEvicted (k : Kernel) (pa : ℕ) (rest : List ℕ) (new : Kernel) : Type 0 where
  pub disk :
      (x j : ℕ)
      → new.disk x j
        ≡ (if x == psa_start + block k && ltb j 1024 then k.memory.byte (pa + j) else k.disk x j)
  pub free : new.memory.freelist ≡ pa ∷ rest
  pub entries :
      (v : ℕ)
      → entry new.proc.pagetable v
        ≡ (if v == (chosen k).addr / 4096 then 0 else entry k.proc.pagetable v)
  pub tracker :
      (i : ℕ)
      → new.proc.heap_tracker i
        ≡ put_heap k.proc.heap_tracker
            (victim k.proc.heap_tracker k.ticks)
            (record (chosen k) { loaded = false; startblock = some (block k) })
            i
