-- ===== src/Paging/Fork/Private.antt =====
-- Project-2, kernel/cow.c: the page that copy_on_write() makes.
use cse_536_advanced_operati.Base.{
  ℕ, ◌+◌, ◌-◌, ◌/◌, ◌%◌, ◌≤◌, ◌≡◌, refl, ap, ◌∙◌, ◌⊎◌, false, ◌&&◌, Option, none, some, List, ◌∷◌,
  ltb, leb, ◌==◌, if◌then◌else◌, Outcome, ret, panic, has_bit, set_bit, arith,
}
use cse_536_advanced_operati.Vm.Memory.{Memory, page_size, kalloc, kalloc_first, memset, memmove}
use cse_536_advanced_operati.Vm.Table.{
  PageTable, put_leaf, walk, pte_v, pte_w, pa2pte, pte2pa, pte_flags, page_round_down,
}
use cse_536_advanced_operati.Vm.Table.Entries.{entry, IsPresent, put_leaf-entry}
use cse_536_advanced_operati.Vm.Table.Range.{mappages_present}
use cse_536_advanced_operati.Vm.User.Unmap.{IsMapped, walk-IsMapped, uvmunmap_kept}
use cse_536_advanced_operati.Paging.State.{Kernel, kept_by_group}
use cse_536_advanced_operati.Paging.Fork.{mapped_or_panic, replace_page, copy_on_write}

-- An entry is replaced where the tree reaches it.
pub remapped-entry :
    (pt : PageTable) (v pte k : ℕ)
    → IsPresent pt v
    → entry (put_leaf (put_leaf pt v 0) v pte) k ≡ (if k == v then pte else entry pt k)
remapped-entry pt v pte k p =
    put_leaf-entry (put_leaf pt v 0) v pte k p
    ∙ (let clear = put_leaf-entry pt v 0 k p in ground arith)

-- The process has page `m` at `addr`, writable, with the bytes that the shared page has; every other
-- entry, and every byte outside of `m`, is as it was.
pub record IsPrivate (k : Kernel) (addr pte m : ℕ) (rest : List ℕ) (new : Kernel) : Type 0 where
  pub entries :
      (v : ℕ)
      → entry new.proc.pagetable v ≡ (
          if v == addr / 4096
          then pa2pte m + set_bit pte_v (set_bit pte_w (pte_flags pte))
          else entry k.proc.pagetable v)
  pub bytes :
      (a : ℕ)
      → new.memory.byte a ≡ (
          if leb m a && ltb a (m + page_size)
          then k.memory.byte (pte2pa pte + (a - m))
          else k.memory.byte a)
  pub free : new.memory.freelist ≡ rest
  pub groups : new.groups ≡ k.groups

replace_page-lem :
    (addr pte m : ℕ) (k : Kernel)
    → addr % page_size ≡ 0
    → IsMapped k.proc.pagetable addr pte
    → replace_page addr pte m k
      ≡ ret (record k {
        memory = record k.memory { byte = memmove k.memory.byte m (pte2pa pte) page_size };
        proc = record k.proc {
          pagetable =
              put_leaf
                (put_leaf k.proc.pagetable (addr / 4096) 0)
                (addr / 4096)
                (pa2pte m + set_bit pte_v (set_bit pte_w (pte_flags pte)));
        };
      })
unfolding replace_page mapped_or_panic
replace_page-lem addr pte m k al h =
    let copied = record k.memory { byte = memmove k.memory.byte m (pte2pa pte) page_size } in
    let cleared = put_leaf k.proc.pagetable (addr / 4096) 0 in
    let empty : has_bit pte_v (entry cleared (addr / 4096)) ≡ false =
      rw (put_leaf-entry k.proc.pagetable (addr / 4096) 0 (addr / 4096) h.present) (ground arith) in
    rw
      (
        uvmunmap_kept (kept_by_group k.proc k.groups) k.proc.pagetable addr pte copied al h,
        mappages_present cleared addr m (set_bit pte_w (pte_flags pte)) copied h.inside al h.present
            empty,
      )
      refl

copy_on_write_step :
    (stval pte m : ℕ) (k : Kernel) (taken : Memory)
    → walk k.proc.pagetable (page_round_down stval) ≡ ret (some pte)
    → kalloc k.memory ≡ (some m, taken)
    → copy_on_write stval k
      ≡ replace_page (page_round_down stval) pte m (record k { memory = taken })
unfolding copy_on_write
copy_on_write_step stval pte m k taken w t =
    let copied : Option ℕ × Memory → Outcome Kernel = λ p. elim p.0 as (λ _. Outcome Kernel) [
      | none ↦ panic
      | some q ↦ replace_page (page_round_down stval) pte q (record k { memory = p.1 })
    ] in
    rw (copy_on_write, w) (ap copied t)

-- A write fault on a mapped page, with `m` the first free page and apart from the shared page: the
-- handler returns, and the process has its own writable copy of the page; the shared page and all
-- other memory stay.
pub copy_on_write-IsPrivate :
    (stval pte m : ℕ) (rest : List ℕ) (k : Kernel)
    → IsMapped k.proc.pagetable (page_round_down stval) pte
    → k.memory.freelist ≡ m ∷ rest
    → (pte2pa pte + page_size ≤ m) ⊎ (m + page_size ≤ pte2pa pte)
    → (new : Kernel) × (copy_on_write stval k ≡ ret new)
      × IsPrivate k (page_round_down stval) pte m rest new
unfolding memset memmove
copy_on_write-IsPrivate stval pte m rest k h free apart =
    let taken = kalloc_first k.memory m rest free in
    let k' = record k {
      memory = record k.memory { byte = memset k.memory.byte m 5 page_size; freelist = rest };
    } in
    (
      record k' {
        memory = record k'.memory { byte = memmove k'.memory.byte m (pte2pa pte) page_size };
        proc = record k.proc {
          pagetable =
              put_leaf (put_leaf k.proc.pagetable (page_round_down stval / 4096) 0)
                (page_round_down stval / 4096)
                (pa2pte m + set_bit pte_v (set_bit pte_w (pte_flags pte)));
        };
      },
      copy_on_write_step stval pte m k _
            (walk-IsMapped k.proc.pagetable (page_round_down stval) pte h) taken
          ∙ replace_page-lem (page_round_down stval) pte m k' (omega arith) h,
      record {
        entries = λ v. remapped-entry k.proc.pagetable (page_round_down stval / 4096) _ v h.present;
        bytes = λ a. ground arith;
        free = refl;
        groups = refl;
      },
    )
