-- ===== src/Vm/User/Copy.antt =====
-- kernel/vm.c: copyin() of one page.
use cse_536_advanced_operati.Base.{
  ℕ, zero, suc, ◌+◌, ◌-◌, ◌/◌, ◌%◌, ◌^◌, ◌<◌, ◌≡◌, ◌≢◌, refl, sym, ap, ◌∙◌, true, false, ◌&&◌, leb,
  ◌==◌, ret, has_bit, arith,
}
use cse_536_advanced_operati.Vm.Memory.{Memory, page_size, memmove}
use cse_536_advanced_operati.Vm.Table.{PageTable, walkaddr, pte_u, pte2pa, max_va, page_round_down}
use cse_536_advanced_operati.Vm.Table.Entries.{mid_place, low_place, entry_present}
use cse_536_advanced_operati.Vm.User.{chunk, copyin_to, copyin_page}
use cse_536_advanced_operati.Vm.User.Unmap.{IsMapped}

pub walkaddr-IsMapped :
    (pt : PageTable) (va pte : ℕ)
    → IsMapped pt va pte
    → has_bit pte_u pte ≡ true
    → walkaddr pt va ≡ ret (pte2pa pte)
unfolding walkaddr
walkaddr-IsMapped pt va pte h u =
    let inside : leb max_va va ≡ false = ground (arith, h.inside) in
    let both : (pt.mid (va / 2 ^ 30) && pt.low (va / 2 ^ 21)) ≡ true =
      rw (mid_place va, low_place va) at h.present in
    let leaf : pt.leaf (va / 2 ^ 12) ≡ pte = sym (entry_present pt (va / 4096) h.present) ∙ h.is in
    rw (inside, both, leaf, h.valid, u) refl

-- A copy that one round does.
copyin_to_one :
    (rounds : ℕ) (pt : PageTable) (m : Memory) (dst srcva len pa : ℕ)
    → 1 < rounds
    → 0 < len
    → chunk srcva len ≡ len
    → walkaddr pt (page_round_down srcva) ≡ ret pa
    → pa ≢ 0
    → copyin_to rounds pt m dst srcva len
      ≡ ret
          (true, record m { byte = memmove m.byte dst (pa + (srcva - page_round_down srcva)) len })
unfolding copyin_to
copyin_to_one zero pt m dst srcva len pa r l c w z = absurd (omega arith)
copyin_to_one (suc zero) pt m dst srcva len pa r l c w z = absurd (omega arith)
copyin_to_one (suc (suc rounds)) pt m dst srcva len pa r l c w z =
    let some_bytes : (len == 0) ≡ false = ground arith in
    let there : (pa == 0) ≡ false = ground arith in
    let done : (len - len == 0) ≡ true = ground arith in rw (some_bytes, w, there, c, done) refl

-- A whole page at its start.
pub copyin_page_lem :
    (pt : PageTable) (m : Memory) (dst srcva pte : ℕ)
    → srcva % page_size ≡ 0
    → IsMapped pt srcva pte
    → has_bit pte_u pte ≡ true
    → pte2pa pte ≢ 0
    → copyin_page pt m dst srcva
      ≡ ret (true, record m { byte = memmove m.byte dst (pte2pa pte) page_size })
unfolding copyin_page
copyin_page_lem pt m dst srcva pte al h u z =
    let start : page_round_down srcva ≡ srcva = omega arith in
    copyin_to_one page_size pt m dst srcva page_size (pte2pa pte) (omega arith) (omega arith)
      (ground arith) (rw start (walkaddr-IsMapped pt srcva pte h u)) z
    ∙ ap (λ n. ret (true, record m { byte = memmove m.byte dst n page_size })) (omega arith)
