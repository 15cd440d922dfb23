-- ===== src/Trap/Emulate.antt =====
-- Project-4, kernel/trap-and-emulate.c: trap_and_emulate(), which decodes the instruction at the
-- trap and carries it out, and the state that trap_and_emulate_init() sets up.
pub mod Modes
pub mod Access
pub mod Reach
use cse_536_advanced_operati.Base.{
  ℕ, ◌+◌, ◌*◌, ◌/◌, ◌%◌, ◌^◌, not, ◌&&◌, none, some, List, [], ◌∷◌, ◌==◌, if◌then◌else◌, Outcome,
  ret, ◌>>=◌, u64,
}
use cse_536_advanced_operati.Vm.Table.{copyin}
use cse_536_advanced_operati.Trap.State.{
  State, stvec, sepc, sstatus, mstatus, mepc, kill, set_reg, set_mode, set_epc, set_frame, u_mode,
  s_mode, m_mode,
}
use cse_536_advanced_operati.Trap.Csr.{csr_register_1, csr_register}
use cse_536_advanced_operati.Trap.Frame.{get_trapframe, csrr_write_trapframe}
use cse_536_advanced_operati.Trap.Write.{csrw_write}
use cse_536_advanced_operati.Trap.Pmp.{pmp_configuration}

-- The fields of an instruction that the emulator looks at; `op` is only printed.
pub record Instruction : Type 0 where
  pub rd : ℕ
  pub funct3 : ℕ
  pub rs1 : ℕ
  pub uimm : ℕ

unfoldable pub decode : ℕ → Instruction
decode word = record {
  rd = word / 2 ^ 7 % 2 ^ 5;
  funct3 = word / 2 ^ 12 % 2 ^ 3;
  rs1 = word / 2 ^ 15 % 2 ^ 5;
  uimm = word / 2 ^ 20 % 2 ^ 12;
}

-- A uint64 from its bytes, the lowest first.
unfoldable pub from_bytes : List ℕ → ℕ
from_bytes [] = 0
from_bytes (b ∷ bs) = b + 256 * from_bytes bs

-- `p->trapframe->epc += 4`
abbrev pub next_instruction : State → State
next_instruction s = set_epc s (u64 (s.proc.trapframe.epc + 4))

unfoldable pub do_ecall : State → State
do_ecall s =
    if s.vmm.exec_mode == u_mode
    then set_epc (set_reg (set_mode s s_mode) sepc s.proc.trapframe.epc) (s.vmm.regs stvec).val
    else s

unfoldable pub do_sret : State → State
do_sret s =
    if not (s.vmm.exec_mode == s_mode)
    then kill s
    else if (s.vmm.regs sstatus).val / 2 ^ 8 % 2 == 1
    then set_mode s s_mode
    else set_epc (set_mode s u_mode) (s.vmm.regs sepc).val

-- What mret does before it configures the protection; `value_mstatus` is mstatus.
leave_m : ℕ → State → State
leave_m mpp s =
    if mpp == 3
    then set_epc (set_mode s m_mode) (s.vmm.regs mepc).val
    else if mpp == 2
    then kill s
    else if mpp == 1
    then set_epc (set_mode s s_mode) (s.vmm.regs mepc).val
    else if mpp == 0
    then set_epc (set_mode s u_mode) (s.vmm.regs mepc).val
    else s

unfoldable pub do_mret : State → Outcome State
unfolding leave_m
do_mret s = pmp_configuration m_mode (leave_m ((s.vmm.regs mstatus).val / 2 ^ 11 % 4) s) >>= λ s'.
    ret (if s'.pmp_config then kill s' else s')

unfoldable pub do_csrr : Instruction → State → State
do_csrr i s = next_instruction (elim (csr_register_1 s.vmm i.uimm s.vmm.exec_mode) [
  | none ↦ kill s
  | some r ↦ set_frame s (csrr_write_trapframe i.rd (s.vmm.regs r).val s.proc.trapframe)
])

unfoldable pub do_csrw : Instruction → State → State
do_csrw i s = next_instruction (elim (csr_register i.uimm) [
  | none ↦ kill s
  | some r ↦ csrw_write i.uimm (get_trapframe s.proc.trapframe i.rs1) s
])

-- The chain of tests on the decoded instruction.
unfoldable pub execute : Instruction → State → Outcome State
execute i s =
    if i.funct3 == 0 && i.uimm == 0
    then ret (do_ecall s)
    else if i.funct3 == 0 && i.uimm == 0x102
    then ret (do_sret s)
    else if i.funct3 == 0 && i.uimm == 0x302
    then do_mret s
    else if i.funct3 == 2
    then ret (do_csrr i s)
    else if i.funct3 == 1
    then ret (do_csrw i s)
    else ret (kill s)

unfoldable pub trap_and_emulate : State → Outcome State
trap_and_emulate s = copyin s.proc.pagetable s.memory s.proc.trapframe.epc 8 >>= λ fetched.
    elim fetched [ none ↦ ret (kill s) | some bytes ↦ execute (decode (from_bytes bytes)) s ]
