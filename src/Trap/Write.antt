-- ===== src/Trap/Write.antt =====
-- Project-4, kernel/trap-and-emulate.c: csrw_write(), the write of a CSR by the guest.
pub mod Laws
use cse_536_advanced_operati.Base.{
  ℕ, ◌-◌, Bool, not, ◌&&◌, none, some, List, [], ◌∷◌, leb, ◌==◌, if◌then◌else◌, find_row,
}
use cse_536_advanced_operati.Trap.State.{
  RegName, mtvec, mstatus, mepc, medeleg, mideleg, mie, mip, misa, sstatus, sie, sepc, stvec, satp,
  sedeleg, uepc, utvec, uscratch, ucause, ubadaddr, uip, uie, pmpaddr, pmpcfg, State, kill, set_reg,
  u_mode, s_mode, m_mode,
}

-- The three guards of the chain: `exec_mode != M_MODE`, `exec_mode != S_MODE && exec_mode !=
-- M_MODE` and `exec_mode != U_MODE`.
pub data Guard : Type 0 where
  only_m s_or_m only_u : Guard

abbrev pub refuses : Guard → ℕ → Bool
refuses only_m mode = not (mode == m_mode)
refuses s_or_m mode = not (mode == s_mode) && not (mode == m_mode)
refuses only_u mode = not (mode == u_mode)

-- The chain of tests on `code`: the guard of each branch and the register that it assigns.
unfoldable pub write_branches : List (ℕ × (Guard × RegName))
write_branches =
    (0x300, (only_m, mstatus))
    ∷ (0x301, (only_m, misa))
    ∷ (0x302, (only_m, medeleg))
    ∷ (0x303, (only_m, mideleg))
    ∷ (0x304, (only_m, mie))
    ∷ (0x305, (only_m, mtvec))
    ∷ (0x344, (only_m, mip))
    ∷ (0x341, (only_m, mepc))
    ∷ (0x100, (s_or_m, sstatus))
    ∷ (0x104, (s_or_m, sie))
    ∷ (0x105, (s_or_m, stvec))
    ∷ (0x180, (s_or_m, satp))
    ∷ (0x102, (s_or_m, sedeleg))
    ∷ (0x041, (only_u, uepc))
    ∷ (0x042, (only_u, ucause))
    ∷ (0x044, (only_u, uip))
    ∷ (0x043, (only_u, ubadaddr))
    ∷ (0x004, (only_u, uie))
    ∷ (0x005, (only_u, utvec))
    ∷ (0x040, (only_u, uscratch))
    ∷ (0x141, (s_or_m, sepc))
    ∷ []

-- A branch: a guard that fails kills the process, and the assignment follows all the same.
unfoldable pub write_branch : Guard → RegName → ℕ → State → State
write_branch g r value s = set_reg (if refuses g s.vmm.exec_mode then kill s else s) r value

abbrev pub is_pmp : ℕ → Bool
is_pmp code = leb 0x3a0 code && leb code 0x3bf

-- The second half of the function. Its test of `pmp_index` never fails.
write_pmp : ℕ → ℕ → State → State
write_pmp code value s =
    if leb 0x3a0 code && leb code 0x3af
    then set_reg s (pmpcfg (code - 0x3a0)) value
    else if leb 0x3b0 code && leb code 0x3bf
    then set_reg s (pmpaddr (code - 0x3b0)) value
    else s

unfoldable pub csrw_write : ℕ → ℕ → State → State
unfolding write_branch write_pmp
csrw_write code value s =
    if is_pmp code
    then (if not (s.vmm.exec_mode == m_mode) then kill s else write_pmp code value s)
    else elim (find_row write_branches code) [
      | none ↦ kill s
      | some (g, r) ↦ write_branch g r value s
    ]
