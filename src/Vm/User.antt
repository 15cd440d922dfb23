-- ===== src/Vm/User.antt =====
-- User memory: uvmunmap(), uvmalloc(), uvmdealloc(), uvmclear(), copyout() and copyin() of
-- kernel/vm.c of Project-2. uvmunmap() asks whether a page is shared by a copy-on-write group: that
-- question is the argument `kept`.
pub mod Unmap
pub mod Copy
use cse_536_advanced_operati.Base.{
  ℕ, zero, suc, ◌+◌, ◌-◌, ◌*◌, ◌/◌, ◌%◌, ◌^◌, Bool, true, false, not, ◌&&◌, Option, none, some, ltb,
  leb, ◌==◌, if◌then◌else◌, Outcome, ret, panic, ◌>>=◌, has_bit, set_bit, clear_bit,
}
use cse_536_advanced_operati.Vm.Memory.{Memory, page_size, kalloc, kfree, memset, memmove}
use cse_536_advanced_operati.Vm.Table.{
  PageTable, put_leaf, walk, walkaddr, mappages, pte_v, pte_r, pte_u, pte2pa, pte_flags,
  page_round_down, page_round_up,
}

-- One round of the loop of uvmunmap().
unfoldable pub unmap_page :
    (ℕ → Outcome Bool) → Bool → PageTable → ℕ → Memory → Outcome (PageTable × Memory)
unmap_page kept do_free pt a m = walk pt a >>= λ found. elim found [
  | none ↦ panic
  | some pte ↦
      if not (has_bit pte_v pte)
      then ret (pt, m)
      else if pte_flags pte == 1
      then panic
      else if not do_free
      then ret (put_leaf pt (a / 4096) 0, m)
      else kept (pte2pa pte) >>= λ shared.
          if shared
          then ret (put_leaf pt (a / 4096) 0, m)
          else kfree (pte2pa pte) m >>= λ m'. ret (put_leaf pt (a / 4096) 0, m')
]

unfoldable pub unmap_pages :
    (ℕ → Outcome Bool) → Bool → ℕ → PageTable → ℕ → Memory → Outcome (PageTable × Memory)
unmap_pages kept do_free zero pt a m = ret (pt, m)
unmap_pages kept do_free (suc npages) pt a m =
    unmap_page kept do_free pt a m >>= λ w. unmap_pages kept do_free npages w.0 (a + page_size) w.1

-- The callers keep `va + npages * PGSIZE` below 2 ^ 64.
unfoldable pub uvmunmap :
    (ℕ → Outcome Bool) → PageTable → ℕ → ℕ → Bool → Memory → Outcome (PageTable × Memory)
uvmunmap kept pt va npages do_free m =
    if not (va % page_size == 0) then panic else unmap_pages kept do_free npages pt va m

-- The size, with the table and the memory after it.
unfoldable pub uvmdealloc :
    (ℕ → Outcome Bool) → PageTable → ℕ → ℕ → Memory → Outcome (ℕ × PageTable × Memory)
uvmdealloc kept pt oldsz newsz m =
    let npages = (page_round_up oldsz - page_round_up newsz) / page_size in
    if leb oldsz newsz
    then ret (oldsz, pt, m)
    else if not (ltb (page_round_up newsz) (page_round_up oldsz))
    then ret (newsz, pt, m)
    else uvmunmap kept pt (page_round_up newsz) npages true m >>= λ w. ret (newsz, w.0, w.1)

-- The loop of uvmalloc() with its two error paths; `rounds` counts the pages from `a` to `newsz`.
unfoldable pub alloc_pages :
    (ℕ → Outcome Bool) → ℕ → ℕ → ℕ → ℕ → ℕ → PageTable → Memory → Outcome (ℕ × PageTable × Memory)
alloc_pages kept zero a oldsz newsz xperm pt m = ret (newsz, pt, m)
alloc_pages kept (suc rounds) a oldsz newsz xperm pt m =
    let (mem, taken) = kalloc m in
    elim mem [
      | none ↦ uvmdealloc kept pt a oldsz taken >>= λ w. ret (0, w.1, w.2)
      | some pa ↦
          mappages pt a page_size pa (set_bit pte_r (set_bit pte_u xperm))
            (record taken { byte = memset taken.byte pa 0 page_size })
          >>= λ mapped.
              if mapped.0
              then alloc_pages kept rounds (a + page_size) oldsz newsz xperm mapped.1 mapped.2
              else kfree pa mapped.2 >>= λ freed.
                  uvmdealloc kept mapped.1 a oldsz freed >>= λ w. ret (0, w.1, w.2)
    ]

-- 0 is the result of a failure.
unfoldable pub uvmalloc :
    (ℕ → Outcome Bool) → PageTable → ℕ → ℕ → ℕ → Memory → Outcome (ℕ × PageTable × Memory)
uvmalloc kept pt oldsz newsz xperm m =
    let start = page_round_up oldsz in
    if ltb newsz oldsz
    then ret (oldsz, pt, m)
    else alloc_pages kept ((newsz - start + 4095) / page_size) start start newsz xperm pt m

unfoldable pub uvmclear : PageTable → ℕ → Outcome PageTable
uvmclear pt va = walk pt va >>= λ found. elim found [
  | none ↦ panic
  | some pte ↦ ret (put_leaf pt (va / 4096) (clear_bit pte_u pte))
]

-- The loop of uvmcopy(), which leaves off at the first page that cannot be copied: the pages of the
-- child are then unmapped and the result is -1, `false`.
unfoldable pub copy_pages :
    (ℕ → Outcome Bool)
    → ℕ
    → ℕ
    → PageTable
    → PageTable
    → Memory
    → Outcome (Bool × PageTable × Memory)
copy_pages kept zero i old new m = ret (true, new, m)
copy_pages kept (suc rounds) i old new m = walk old i >>= λ found. elim found [
  | none ↦ panic
  | some pte ↦
      let (mem, taken) = kalloc m in
      if not (has_bit pte_v pte) then panic else elim mem [
        | none ↦ uvmunmap kept new 0 (i / page_size) true taken >>= λ w. ret (false, w.0, w.1)
        | some pa ↦
            mappages new i page_size pa (pte_flags pte)
              (record taken { byte = memmove taken.byte pa (pte2pa pte) page_size })
            >>= λ mapped.
                if mapped.0
                then copy_pages kept rounds (i + page_size) old mapped.1 mapped.2
                else kfree pa mapped.2 >>= λ freed.
                    uvmunmap kept mapped.1 0 (i / page_size) true freed >>= λ w.
                    ret (false, w.0, w.1)
      ]
]

unfoldable pub uvmcopy :
    (ℕ → Outcome Bool) → PageTable → PageTable → ℕ → Memory → Outcome (Bool × PageTable × Memory)
uvmcopy kept old new sz m = copy_pages kept ((sz + 4095) / page_size) 0 old new m

-- The number of bytes that a round of copyout() or copyin() copies.
abbrev pub chunk : ℕ → ℕ → ℕ
chunk va len =
    let room = page_size - (va - page_round_down va) in if ltb room len then room else len

-- The loop of copyout(), from kernel address `src`. Each round copies a byte at least, so `len`
-- rounds are enough. `false` is the result -1, with the bytes copied by then.
unfoldable pub copyout_from : ℕ → PageTable → Memory → ℕ → ℕ → ℕ → Outcome (Bool × Memory)
copyout_from zero pt m dstva src len = ret (true, m)
copyout_from (suc rounds) pt m dstva src len =
    let va0 = page_round_down dstva in
    let n = chunk dstva len in
    if len == 0
    then ret (true, m)
    else walkaddr pt va0 >>= λ pa0.
        let rest =
          copyout_from rounds pt (record m { byte = memmove m.byte (pa0 + (dstva - va0)) src n })
            (va0 + page_size) (src + n) (len - n) in
        if pa0 == 0 then ret (false, m) else rest

unfoldable pub copyout : PageTable → Memory → ℕ → ℕ → ℕ → Outcome (Bool × Memory)
copyout pt m dstva src len = copyout_from len pt m dstva src len

-- copyin() to kernel address `dst`, in the same way.
unfoldable pub copyin_to : ℕ → PageTable → Memory → ℕ → ℕ → ℕ → Outcome (Bool × Memory)
copyin_to zero pt m dst srcva len = ret (true, m)
copyin_to (suc rounds) pt m dst srcva len =
    let va0 = page_round_down srcva in
    let n = chunk srcva len in
    if len == 0
    then ret (true, m)
    else walkaddr pt va0 >>= λ pa0.
        let rest =
          copyin_to rounds pt (record m { byte = memmove m.byte dst (pa0 + (srcva - va0)) n })
            (dst + n) (va0 + page_size) (len - n) in
        if pa0 == 0 then ret (false, m) else rest

unfoldable pub copyin_page : PageTable → Memory → ℕ → ℕ → Outcome (Bool × Memory)
copyin_page pt m dst srcva = copyin_to page_size pt m dst srcva page_size
