-- ===== src/Trap/Csr.antt =====
-- Project-4, kernel/trap-and-emulate.c: the table of the CSR codes and the two searches in it.
pub mod Search
use cse_536_advanced_operati.Base.{
  ℕ, zero, suc, ◌+◌, Option, none, some, List, [], ◌∷◌, leb, ◌==◌, if◌then◌else◌, find_row,
}
use cse_536_advanced_operati.Trap.State.{
  RegName, mtvec, mstatus, mepc, medeleg, mideleg, mie, mip, mtval2, mcounteren, mvendorid, marchid,
  mimpid, mhartid, mconfigptr, mcause, mscratch, misa, mtval, mtinst, sstatus, sie, sepc, stvec,
  satp, sedeleg, scounteren, uepc, utvec, uscratch, ucause, ubadaddr, uip, uie, pmpaddr, pmpcfg,
  VmState,
}

-- The rows that the loop at the end of the table adds.
pmp_rows : ℕ → ℕ → List (ℕ × Option RegName)
pmp_rows i zero = []
pmp_rows i (suc n) =
    (0x3a0 + i, some (pmpcfg i)) ∷ (0x3b0 + i, some (pmpaddr i)) ∷ pmp_rows (i + 1) n

-- csr_register_map_values as initialize_csr_register_map_values() leaves it: a code, and the
-- register that it names, if any.
unfoldable pub csr_register_map_values : List (ℕ × Option RegName)
unfolding pmp_rows
csr_register_map_values =
    (0x305, some mtvec)
    ∷ (0xf14, some mhartid)
    ∷ (0x300, some mstatus)
    ∷ (0x341, some mepc)
    ∷ (0x302, some medeleg)
    ∷ (0x303, some mideleg)
    ∷ (0xf11, some mvendorid)
    ∷ (0x140, some mscratch)
    ∷ (0x342, some mcause)
    ∷ (0x343, some mtval)
    ∷ (0x344, some mip)
    ∷ (0x34a, some mtinst)
    ∷ (0x301, some misa)
    ∷ (0x304, some mie)
    ∷ (0x306, some mcounteren)
    ∷ (0xf12, some marchid)
    ∷ (0xf13, some mimpid)
    ∷ (0xf15, some mconfigptr)
    ∷ (0x180, some satp)
    ∷ (0x104, some sie)
    ∷ (0x105, some stvec)
    ∷ (0x100, some sstatus)
    ∷ (0x102, some sedeleg)
    ∷ (0x106, some scounteren)
    ∷ (0x041, some uepc)
    ∷ (0x042, some ucause)
    ∷ (0x043, some ubadaddr)
    ∷ (0x044, some uip)
    ∷ (0x004, some uie)
    ∷ (0x005, some utvec)
    ∷ (0x040, some uscratch)
    ∷ (0x34b, some mtval2)
    ∷ (0x141, some sepc)
    ∷ (0x34c, none)
    ∷ (0x000, none)
    ∷ pmp_rows 0 16

-- The search of csr_register_1(): a row of the code whose register asks for no more than
-- `curr_mode`. It goes on past a register of a higher mode.
search_1 : VmState → List (ℕ × Option RegName) → ℕ → ℕ → Option RegName
search_1 vmm [] code curr_mode = none
search_1 vmm ((k, none) ∷ rows) code curr_mode =
    if k == code then none else search_1 vmm rows code curr_mode
search_1 vmm ((k, some r) ∷ rows) code curr_mode =
    if k == code
    then (if leb (vmm.regs r).mode curr_mode then some r else search_1 vmm rows code curr_mode)
    else search_1 vmm rows code curr_mode

unfoldable pub csr_register_1 : VmState → ℕ → ℕ → Option RegName
unfolding search_1
csr_register_1 vmm code curr_mode = search_1 vmm csr_register_map_values code curr_mode

-- The pointer of a row found, or a null pointer.
or_null : Option (Option RegName) → Option RegName
or_null none = none
or_null (some r) = r

-- csr_register(): the first row of the code, whatever its mode.
unfoldable pub csr_register : ℕ → Option RegName
unfolding or_null
csr_register code = or_null (find_row csr_register_map_values code)
