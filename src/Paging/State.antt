-- ===== src/Paging/State.antt =====
-- Project-2, kernel/proc.h and kernel/pfault.c: the process and the kernel that the paging code
-- reads and writes. The disk is its blocks of 1024 bytes, as bread() and bwrite() show them.
use cse_536_advanced_operati.Base.{
  ℕ, ◌-◌, ◌^◌, Bool, false, not, ◌&&◌, Option, ltb, ◌==◌, if◌then◌else◌, Outcome, ret, ◌>>=◌,
}
use cse_536_advanced_operati.Vm.Memory.{Memory}
use cse_536_advanced_operati.Vm.Table.{PageTable}
use cse_536_advanced_operati.Cow.Groups.{Groups, get_cow_group_count, is_shmem}

abbrev pub max_heap : ℕ
max_heap = 1000

abbrev pub max_res_heap : ℕ
max_res_heap = 100

abbrev pub psa_start : ℕ
psa_start = 33

abbrev pub psa_size : ℕ
psa_size = 4000

-- The address of an entry that is not in use.
abbrev pub no_address : ℕ
no_address = 2 ^ 64 - 1

-- struct heap_tracker_t; `startblock` is `none` for -1.
pub record HeapPage : Type 0 where
  pub addr : ℕ
  pub last_load_time : ℕ
  pub loaded : Bool
  pub startblock : Option ℕ

-- The fields of struct proc that the paging code uses; `cow_group` is `none` for -1.
pub record Proc : Type 0 where
  pub sz : ℕ
  pub pagetable : PageTable
  pub ondemand : Bool
  pub heap_tracker : ℕ → HeapPage
  pub resident_heap_pages : ℕ
  pub cow_group : Option ℕ
  pub cow_enabled : Bool

pub record Kernel : Type 0 where
  pub proc : Proc
  pub memory : Memory
  pub groups : Groups
  pub psa_tracker : ℕ → Bool
  pub disk : ℕ → ℕ → ℕ
  pub ticks : ℕ

-- The test of uvmunmap() for a page that its copy-on-write group still uses.
unfoldable pub kept_by_group : Proc → Groups → ℕ → Outcome Bool
kept_by_group p gs pa =
    if not p.cow_enabled
    then ret false
    else get_cow_group_count p.cow_group gs >>= λ count.
        if ltb 1 count && ltb count (2 ^ 31) then is_shmem p.cow_group pa gs else ret false

abbrev pub put_heap : (ℕ → HeapPage) → ℕ → HeapPage → ℕ → HeapPage
put_heap h i e k = if k == i then e else h k

abbrev pub set_proc : Kernel → Proc → Kernel
set_proc k p = record k { proc = p }
