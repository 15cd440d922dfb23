-- ===== src/Vm/User/Unmap.antt =====
-- kernel/vm.c: uvmunmap() of one page.
use cse_536_advanced_operati.Base.{
  ℕ, ◌/◌, ◌%◌, ◌^◌, ◌<◌, ◌≡◌, ◌≢◌, refl, sym, ap, ◌∙◌, Bool, true, false, ◌&&◌, some, leb, ◌==◌,
  Outcome, ret, has_bit, arith,
}
use cse_536_advanced_operati.Vm.Memory.{Memory, page_size, kfree}
use cse_536_advanced_operati.Vm.Table.{PageTable, put_leaf, walk, pte_v, pte2pa, pte_flags, max_va}
use cse_536_advanced_operati.Vm.Table.Entries.{entry, IsPresent, entry_present}
use cse_536_advanced_operati.Vm.User.{unmap_page, unmap_pages, uvmunmap}

-- An entry that the tree reaches, is valid and points to a page and not to a part of the tree.
pub record IsMapped (pt : PageTable) (va pte : ℕ) : Type 0 where
  pub inside : va < max_va
  pub present : IsPresent pt (va / 4096)
  pub is : entry pt (va / 4096) ≡ pte
  pub valid : has_bit pte_v pte ≡ true
  pub is_leaf : pte_flags pte ≢ 1

pub walk_found :
    (pt : PageTable) (va : ℕ)
    → va < max_va
    → IsPresent pt (va / 4096)
    → walk pt va ≡ ret (some (entry pt (va / 4096)))
unfolding walk
walk_found pt va b p =
    let inside : leb max_va va ≡ false = ground arith in
    let mid : va / 4096 / 2 ^ 18 ≡ va / 2 ^ 30 = omega arith in
    let low : va / 4096 / 2 ^ 9 ≡ va / 2 ^ 21 = omega arith in
    let there : (pt.mid (va / 2 ^ 30) && pt.low (va / 2 ^ 21)) ≡ true = rw (mid, low) at p in
    rw (inside, there) (ap (λ x. ret (some x)) (sym (entry_present pt (va / 4096) p)))

pub walk-IsMapped : (pt : PageTable) (va pte : ℕ) → IsMapped pt va pte → walk pt va ≡ ret (some pte)
walk-IsMapped pt va pte h = walk_found pt va h.inside h.present ∙ ap (λ x. ret (some x)) h.is

-- Without freeing the page the entry is cleared, and memory stays.
pub uvmunmap_kept :
    (kept : ℕ → Outcome Bool) (pt : PageTable) (va pte : ℕ) (m : Memory)
    → va % page_size ≡ 0
    → IsMapped pt va pte
    → uvmunmap kept pt va 1 false m ≡ ret (put_leaf pt (va / 4096) 0, m)
unfolding uvmunmap unmap_pages unmap_page
uvmunmap_kept kept pt va pte m al h =
    let aligned : (va % page_size == 0) ≡ true = ground arith in
    let is_page : (pte_flags pte == 1) ≡ false = ground (arith, h.is_leaf) in
    rw (aligned, walk-IsMapped pt va pte h, h.valid, is_page) refl

-- With freeing the page goes back to the allocator, unless its group keeps it.
pub uvmunmap_freed :
    (kept : ℕ → Outcome Bool) (pt : PageTable) (va pte : ℕ) (m new : Memory)
    → va % page_size ≡ 0
    → IsMapped pt va pte
    → kept (pte2pa pte) ≡ ret false
    → kfree (pte2pa pte) m ≡ ret new
    → uvmunmap kept pt va 1 true m ≡ ret (put_leaf pt (va / 4096) 0, new)
unfolding uvmunmap unmap_pages unmap_page
uvmunmap_freed kept pt va pte m new al h k f =
    let aligned : (va % page_size == 0) ≡ true = ground arith in
    let is_page : (pte_flags pte == 1) ≡ false = ground (arith, h.is_leaf) in
    rw (aligned, walk-IsMapped pt va pte h, h.valid, is_page, k, f) refl
