-- ===== src/Paging/Fork.antt =====
-- Project-2, kernel/cow.c: uvmcopy_cow() and copy_on_write().
pub mod Page
pub mod Share
pub mod Private
use cse_536_advanced_operati.Base.{
  ℕ, zero, suc, ◌+◌, ◌-◌, ◌*◌, ◌/◌, ◌%◌, ◌^◌, Bool, true, false, not, ◌&&◌, Option, none, some, ltb,
  ◌==◌, if◌then◌else◌, Outcome, ret, panic, ◌>>=◌, has_bit, set_bit, clear_bit,
}
use cse_536_advanced_operati.Vm.Memory.{Memory, page_size, kalloc, memmove}
use cse_536_advanced_operati.Vm.Table.{
  PageTable, walk, mappages, pte_v, pte_w, pte2pa, pte_flags, page_round_down,
}
use cse_536_advanced_operati.Vm.User.{uvmunmap}
use cse_536_advanced_operati.Cow.Groups.{
  Groups, add_shmem, get_cow_group_count, incr_cow_group_count,
}
use cse_536_advanced_operati.Paging.State.{Proc, Kernel, kept_by_group, set_proc}

-- What the loop of uvmcopy_cow() changes.
pub record Sharing : Type 0 where
  pub old : PageTable
  pub new : PageTable
  pub memory : Memory
  pub groups : Groups

-- A result of mappages(); a failure goes to the label `err`, which panics.
unfoldable pub mapped_or_panic : Bool × PageTable × Memory → Outcome (PageTable × Memory)
mapped_or_panic w = if w.0 then ret (w.1, w.2) else panic

-- One page, whose entry is `pte`: the child gets it without the write bit, and so does the parent.
unfoldable pub share_page :
    (Groups → ℕ → Outcome Bool) → Option ℕ → ℕ → ℕ → Sharing → Outcome Sharing
share_page kept group i pte s =
    let pa = pte2pa pte in
    let flags = clear_bit pte_w (pte_flags pte) in
    (mappages s.new i page_size pa flags s.memory >>= mapped_or_panic) >>= λ child.
    add_shmem group pa s.groups >>= λ groups.
    uvmunmap (kept groups) s.old i 1 false child.1 >>= λ cleared.
    (mappages cleared.0 i page_size pa flags cleared.1 >>= mapped_or_panic) >>= λ parent.
    ret (record { old = parent.0; new = child.0; memory = parent.1; groups = groups })

unfoldable pub share_pages :
    (Groups → ℕ → Outcome Bool) → Option ℕ → ℕ → ℕ → Sharing → Outcome Sharing
share_pages kept group zero i s = ret s
share_pages kept group (suc rounds) i s = walk s.old i >>= λ found. elim found [
  | none ↦ panic
  | some pte ↦
      if not (has_bit pte_v pte)
      then panic
      else share_page kept group i pte s >>= λ shared.
          share_pages kept group rounds (i + page_size) shared
]

-- The group of the parent counts the parent where it is the first to fork, and then the child.
unfoldable pub share_memory : (Groups → ℕ → Outcome Bool) → Option ℕ → Sharing → ℕ → Outcome Sharing
share_memory kept group s sz = get_cow_group_count group s.groups >>= λ count.
    (if count == 0 then incr_cow_group_count group s.groups else ret s.groups) >>= λ counted.
    share_pages kept group ((sz + 4095) / page_size) 0 (record s { groups = counted }) >>= λ shared.
    incr_cow_group_count group shared.groups >>= λ groups. ret (record shared { groups = groups })

unfoldable pub uvmcopy_cow : Proc → Sharing → ℕ → Outcome Sharing
uvmcopy_cow p s sz = share_memory (kept_by_group p) p.cow_group s sz

-- The page behind `pte` is copied to a new one, which takes its place with the write bit set.
unfoldable pub replace_page : ℕ → ℕ → ℕ → Kernel → Outcome Kernel
replace_page addr pte m k =
    let p = k.proc in
    let copied = record k.memory { byte = memmove k.memory.byte m (pte2pa pte) page_size } in
    uvmunmap (kept_by_group p k.groups) p.pagetable addr 1 false copied >>= λ cleared.
    (mappages cleared.0 addr page_size m (set_bit pte_w (pte_flags pte)) cleared.1
      >>= mapped_or_panic)
    >>= λ w. ret (record k { memory = w.1; proc = record p { pagetable = w.0 } })

-- Without a free page the copy goes to address 0, which stops the kernel, and so does an address
-- that the table does not reach.
unfoldable pub copy_on_write : ℕ → Kernel → Outcome Kernel
copy_on_write stval k =
    let addr = page_round_down stval in
    walk k.proc.pagetable addr >>= λ found. elim found [
      | none ↦ panic
      | some pte ↦
          let (mem, taken) = kalloc k.memory in
          elim mem [ none ↦ panic | some m ↦ replace_page addr pte m (record k { memory = taken }) ]
    ]
