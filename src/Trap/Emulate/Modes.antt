-- ===== src/Trap/Emulate/Modes.antt =====
-- Project-4, kernel/trap-and-emulate.c: how the mode of the guest moves.
use cse_536_advanced_operati.Base.{
  ℕ, ◌/◌, ◌%◌, ◌^◌, ◌≡◌, not, ◌&&◌, ◌==◌, if◌then◌else◌, ret, >>=-eq-ret, ◌∙◌, arith,
}
use cse_536_advanced_operati.Trap.State.{State, kill, sstatus, mstatus, u_mode, s_mode, m_mode}
use cse_536_advanced_operati.Trap.Write.{csrw_write}
use cse_536_advanced_operati.Trap.Pmp.{pmp_configuration}
use cse_536_advanced_operati.Trap.Pmp.Keeps.{pmp_configuration-Keeps}
use cse_536_advanced_operati.Trap.Emulate.{
  Instruction, do_ecall, do_sret, do_mret, leave_m, do_csrr, do_csrw, execute,
}

-- The mode that mret goes to for a value of mstatus.MPP; at 2 it stays.
abbrev pub mret_mode : ℕ → ℕ → ℕ
mret_mode mpp mode =
    if mpp == 3 then m_mode else if mpp == 1 then s_mode else if mpp == 0 then u_mode else mode

-- The mode after an instruction, as the fields, the mode and the two status registers decide it.
abbrev pub next_mode : Instruction → State → ℕ
next_mode i s =
    if i.funct3 == 0 && i.uimm == 0 && s.vmm.exec_mode == u_mode
    then s_mode
    else if i.funct3 == 0
        && i.uimm == 0x102
        && s.vmm.exec_mode == s_mode
        && not ((s.vmm.regs sstatus).val / 2 ^ 8 % 2 == 1)
    then u_mode
    else if i.funct3 == 0 && i.uimm == 0x302
    then mret_mode ((s.vmm.regs mstatus).val / 2 ^ 11 % 4) s.vmm.exec_mode
    else s.vmm.exec_mode

exec_mode-csrw_write :
    (code v : ℕ) (s : State) → (csrw_write code v s).vmm.exec_mode ≡ s.vmm.exec_mode
unfolding csrw_write
exec_mode-csrw_write code v s = ground arith

exec_mode-do_csrr : (i : Instruction) (s : State) → (do_csrr i s).vmm.exec_mode ≡ s.vmm.exec_mode
unfolding do_csrr
exec_mode-do_csrr i s = ground arith

exec_mode-do_csrw : (i : Instruction) (s : State) → (do_csrw i s).vmm.exec_mode ≡ s.vmm.exec_mode
unfolding do_csrw
exec_mode-do_csrw i s = grind (arith, exec_mode-csrw_write)

exec_mode-leave_m :
    (mpp : ℕ) (s : State) → (leave_m mpp s).vmm.exec_mode ≡ mret_mode mpp s.vmm.exec_mode
unfolding leave_m
exec_mode-leave_m mpp s = ground arith

mode_of_ret :
    (u t : State)
    → ret (if u.pmp_config then kill u else u) ≡ ret t
    → t.vmm.exec_mode ≡ u.vmm.exec_mode
mode_of_ret u t h = ground arith

exec_mode-do_mret :
    (s t : State)
    → do_mret s ≡ ret t
    → t.vmm.exec_mode ≡ mret_mode ((s.vmm.regs mstatus).val / 2 ^ 11 % 4) s.vmm.exec_mode
unfolding do_mret
exec_mode-do_mret s t h =
    let mpp = (s.vmm.regs mstatus).val / 2 ^ 11 % 4 in
    let (u, e, g) = >>=-eq-ret (pmp_configuration m_mode (leave_m mpp s)) _ h in
    let k = (pmp_configuration-Keeps (leave_m mpp s) u e).0 in
    mode_of_ret u t g ∙ k.exec_mode ∙ exec_mode-leave_m mpp s

exec_mode-do_ecall :
    (s : State)
    → (do_ecall s).vmm.exec_mode ≡ (if s.vmm.exec_mode == u_mode then s_mode else s.vmm.exec_mode)
unfolding do_ecall
exec_mode-do_ecall s = ground arith

exec_mode-do_sret :
    (s : State)
    → (do_sret s).vmm.exec_mode ≡ (
        if s.vmm.exec_mode == s_mode && not ((s.vmm.regs sstatus).val / 2 ^ 8 % 2 == 1)
        then u_mode
        else s.vmm.exec_mode)
unfolding do_sret
exec_mode-do_sret s = ground arith

-- The mode of the guest after an instruction that the emulator carries out is the one that
-- `next_mode` says: only an ecall of user mode raises it to supervisor mode, only an sret of
-- supervisor mode lowers it to user mode, and an mret sets it from mstatus.MPP whatever it was.
pub exec_mode-execute :
    (i : Instruction) (s t : State) → execute i s ≡ ret t → t.vmm.exec_mode ≡ next_mode i s
unfolding execute
exec_mode-execute i s t h = ground (
  arith,
  exec_mode-do_ecall s,
  exec_mode-do_sret s,
  exec_mode-do_mret s t,
  exec_mode-do_csrr i s,
  exec_mode-do_csrw i s,
)
