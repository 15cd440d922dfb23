-- ===== src/Trap/Pmp.antt =====
-- Project-4, kernel/trap-and-emulate.c: the emulation of physical memory protection by a second
-- page table. A `panic` is the outcome of that name.
pub mod Keeps
pub mod Permissions
use cse_536_advanced_operati.Base.{
  ℕ, zero, suc, ◌+◌, ◌-◌, ◌*◌, ◌/◌, ◌%◌, ◌^◌, true, not, ◌||◌, none, some, ◌==◌, if◌then◌else◌,
  Outcome, ret, panic, ◌>>=◌, has_bit, u64,
}
use cse_536_advanced_operati.Vm.Memory.{Memory, page_size, kalloc, memset}
use cse_536_advanced_operati.Vm.Table.{
  PageTable, empty_table, put_leaf, walk, mappages, pte_v, pte_r, pte_w, pte_x, pa2pte, pte2pa,
  pte_flags,
}
use cse_536_advanced_operati.Trap.State.{State, Proc, pmpaddr, pmpcfg, m_mode, s_mode, u_mode}

-- The entry of a page that must be present, as both loops read it.
present_entry : PageTable → ℕ → Outcome ℕ
present_entry old i = walk old i >>= λ entry. elim entry [
  | none ↦ panic
  | some pte ↦ if not (has_bit pte_v pte) then panic else ret pte
]

-- `for(i = from; i < to; i += PGSIZE)` with the rounds that are left.
copy_entries : ℕ → ℕ → PageTable → PageTable → Memory → Outcome (PageTable × Memory)
unfolding present_entry
copy_entries zero i old new m = ret (new, m)
copy_entries (suc rounds) i old new m = present_entry old i >>= λ pte.
    mappages new i page_size (pte2pa pte) (pte_flags pte) m >>= λ w.
    let rest = copy_entries rounds (i + page_size) old w.1 w.2 in if not w.0 then panic else rest

-- The rounds of a loop from `a` to `b` by pages.
abbrev pub pages : ℕ → ℕ → ℕ
pages a b = (b - a + 4095) / 4096

-- The new page is cleared by a memset of 512 * 3 entries of eight bytes.
abbrev pub cleared_bytes : ℕ
cleared_bytes = 8 * 512 * 3

-- With no page left the kernel panics. Only the mode M_MODE is ever passed.
-- The entries of [base, final) and of the process's own memory are copied to the new table.
pub copy_both : ℕ → ℕ → Proc → Memory → Outcome (PageTable × Memory)
unfolding copy_entries
copy_both base_addr final_addr p m =
    copy_entries (pages base_addr final_addr) base_addr p.pagetable empty_table m >>= λ w.
    copy_entries (pages 0 p.sz) 0 p.pagetable w.0 w.1

unfoldable pub pmp_pagetable_configuration : ℕ → ℕ → ℕ → State → Outcome State
unfolding kalloc memset
pmp_pagetable_configuration base_addr final_addr execution_mode s =
    let (page, m) = kalloc s.memory in
    elim page [
      | none ↦ panic
      | some pa ↦
          let m' = record m { byte = memset m.byte pa 0 cleared_bytes } in
          let s' = record s { vmm = record s.vmm { vmm_pagetable = empty_table }; memory = m' } in
          if execution_mode == m_mode
          then (copy_both base_addr final_addr s.proc m' >>= λ w.
              ret (record s' { vmm = record s.vmm { vmm_pagetable = w.0 }; memory = w.1 }))
          else if execution_mode == s_mode || execution_mode == u_mode
          then ret (record s' { proc = record s.proc { pagetable = empty_table } })
          else ret s'
    ]

-- The entry that the configuration `cfg` leaves at a page: PA2PTE(PTE2PA(*pte)) | PTE_V, and the
-- bits R, W and X of `cfg` at their places in an entry.
unfoldable pub pmp_entry : ℕ → ℕ → ℕ
pmp_entry cfg pte =
    pa2pte (pte2pa pte)
    + 1
    + (if has_bit pte_r cfg then 2 else 0)
    + (if has_bit pte_w cfg then 4 else 0)
    + (if has_bit pte_x cfg then 8 else 0)

-- One round of the loop of pmp_set_permissions().
unfoldable pub pmp_set_page : ℕ → ℕ → PageTable → Outcome PageTable
pmp_set_page cfg i pt = walk pt i >>= λ entry. elim entry [
  | none ↦ ret pt
  | some pte ↦
      if has_bit pte_v pte then ret (put_leaf pt (i / 4096) (pmp_entry cfg pte)) else ret pt
]

pmp_set_pages : ℕ → ℕ → ℕ → PageTable → Outcome PageTable
unfolding pmp_set_page
pmp_set_pages zero cfg i pt = ret pt
pmp_set_pages (suc rounds) cfg i pt =
    pmp_set_page cfg i pt >>= λ pt'. pmp_set_pages rounds cfg (i + page_size) pt'

unfoldable pub pmp_set_permissions : ℕ → ℕ → ℕ → State → Outcome State
unfolding pmp_set_pages
pmp_set_permissions pmp_final_addr cfg pmp_base_addr s =
    pmp_set_pages (pages pmp_base_addr pmp_final_addr) cfg pmp_base_addr s.vmm.vmm_pagetable
    >>= λ pt. ret (record s { vmm = record s.vmm { vmm_pagetable = pt }; pmp_config = true })

-- `cfg & 0xFF0`, then `>> 8`: the low four bits of the second byte.
abbrev pub pmp_cfg_bits : ℕ → ℕ
pmp_cfg_bits cfg = cfg / 2 ^ 8 % 2 ^ 4

abbrev pub pmp_base : ℕ
pmp_base = 0x8000_0000

abbrev pub pmp_limit : ℕ
pmp_limit = 0x8040_0000

-- `<< 2` on a uint64.
abbrev pub shift_address : ℕ → ℕ
shift_address a = u64 (a * 4)

-- The rest of pmp_configuration(), once the table is there.
unfoldable pub protect : State → Outcome State
protect s =
    let start = (s.vmm.regs (pmpaddr 0)).val in
    let final = (s.vmm.regs (pmpaddr 1)).val in
    if start == 0
    then ret s
    else pmp_set_permissions (if final == 0 then pmp_base else shift_address final)
        (pmp_cfg_bits (s.vmm.regs (pmpcfg 0)).val) (shift_address start) s

unfoldable pub pmp_configuration : ℕ → State → Outcome State
pmp_configuration current_mode s =
    pmp_pagetable_configuration pmp_base pmp_limit current_mode s >>= protect
