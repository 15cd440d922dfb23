-- ===== src/Trap/Emulate/Access.antt =====
-- Project-4, kernel/trap-and-emulate.c: the instructions that the emulator carries out, seen from
-- the guest: CSR accesses, and the way into the guest's kernel and back.
use cse_536_advanced_operati.Base.{
  ℕ, ◌+◌, ◌/◌, ◌%◌, ◌^◌, ◌≤◌, ◌<◌, ◌≡◌, ◌≢◌, refl, ◌⊎◌, true, some, ◌==◌, if◌then◌else◌, ret, u64,
  int_of_u64, arith, ◌∙◌, ap,
}
use cse_536_advanced_operati.Trap.State.{
  State, Trapframe, Gpr, offset, RegName, slot, stvec, sepc, sstatus, u_mode, s_mode, set_frame,
  set_epc,
}
use cse_536_advanced_operati.Trap.Csr.{csr_register_1, csr_register}
use cse_536_advanced_operati.Trap.Csr.Search.{csr_register_1_complete}
use cse_536_advanced_operati.Trap.Frame.{get_trapframe, csrr_write_trapframe}
use cse_536_advanced_operati.Trap.Frame.Laws.{
  lands, get_trapframe-csrr_write_trapframe, get_trapframe-gpr, gpr-csrr_write_trapframe,
}
use cse_536_advanced_operati.Trap.Write.{csrw_write}
use cse_536_advanced_operati.Trap.Write.Laws.{is_writable, permits, level, csrw_write_stores}
use cse_536_advanced_operati.Trap.Emulate.{
  Instruction, do_ecall, do_sret, do_csrr, do_csrw, execute, next_instruction,
}

get-epc :
    (s : State) (a n : ℕ)
    → get_trapframe (set_epc s a).proc.trapframe n ≡ get_trapframe s.proc.trapframe n
unfolding get_trapframe
get-epc s a n = refl

epc-csrr_write_trapframe : (rd v : ℕ) (tf : Trapframe) → (csrr_write_trapframe rd v tf).epc ≡ tf.epc
unfolding csrr_write_trapframe
epc-csrr_write_trapframe rd v tf = ground arith

int_of_u64-get_trapframe :
    (tf : Trapframe) (n : ℕ) → int_of_u64 (get_trapframe tf n) ≡ get_trapframe tf n
unfolding get_trapframe
int_of_u64-get_trapframe tf n = ground arith

do_csrr_found :
    (i : Instruction) (s : State) (r : RegName)
    → csr_register_1 s.vmm i.uimm s.vmm.exec_mode ≡ some r
    → do_csrr i s
      ≡ next_instruction
          (set_frame s (csrr_write_trapframe i.rd (s.vmm.regs r).val s.proc.trapframe))
unfolding do_csrr
do_csrr_found i s r e = rw (e, do_csrr)

do_csrw_found :
    (i : Instruction) (s : State) (r : RegName)
    → csr_register i.uimm ≡ some r
    → do_csrw i s ≡ next_instruction (csrw_write i.uimm (get_trapframe s.proc.trapframe i.rs1) s)
unfolding do_csrw
do_csrw_found i s r e = rw (e, do_csrw)

-- A csrr of a register that the mode may read puts the register's value, cut to an int, in the
-- general register that `lands` says, leaves the others, steps over the instruction and keeps the
-- process alive and the virtual registers as they were.
do_csrr_lem :
    (i : Instruction) (s : State) (r : RegName) (n : ℕ)
    → csr_register i.uimm ≡ some r
    → (s.vmm.regs r).mode ≤ s.vmm.exec_mode
    → i.rd < 32
    → n < 32
    → (get_trapframe (do_csrr i s).proc.trapframe n ≡ (
        if n == lands i.rd
        then int_of_u64 (s.vmm.regs r).val
        else get_trapframe s.proc.trapframe n))
      × ((do_csrr i s).proc.trapframe.epc ≡ u64 (s.proc.trapframe.epc + 4))
      × ((do_csrr i s).proc.killed ≡ s.proc.killed)
      × ((do_csrr i s).vmm ≡ s.vmm)
do_csrr_lem i s r n h m d k =
    let e = csr_register_1_complete s.vmm i.uimm s.vmm.exec_mode r h m in
    let v = (s.vmm.regs r).val in
    let tf = csrr_write_trapframe i.rd v s.proc.trapframe in
    rw (do_csrr_found i s r e) (
      get-epc (set_frame s tf) (u64 (tf.epc + 4)) n
          ∙ get_trapframe-csrr_write_trapframe s.proc.trapframe i.rd n v d k,
      ap (λ a. u64 (a + 4)) (epc-csrr_write_trapframe i.rd v s.proc.trapframe),
      refl,
      refl,
    )

csrw_write-shape :
    (c v : ℕ) (s : State) (q : RegName)
    → (((csrw_write c v s).vmm.regs q).mode ≡ (s.vmm.regs q).mode)
      × ((csrw_write c v s).vmm.exec_mode ≡ s.vmm.exec_mode)
unfolding csrw_write
csrw_write-shape c v s q = ground arith

-- A csrw from a general register followed by a csrr of the same CSR into one of x10 to x17, by a mode
-- that may write and read the CSR: the register holds the low 32 bits of the value with their sign
-- extended. The 32 high bits are lost. Register x_n is word n + 4 of struct trapframe.
pub do_csrr-do_csrw :
    (i j : Instruction) (s : State) (r : RegName) (from to : Gpr)
    → j.uimm ≡ i.uimm
    → csr_register i.uimm ≡ some r
    → is_writable i.uimm ≡ true
    → permits (level i.uimm) s.vmm.exec_mode ≡ true
    → (s.vmm.regs r).mode ≤ s.vmm.exec_mode
    → offset from ≡ i.rs1 + 4
    → offset to ≡ j.rd + 4
    → 10 ≤ j.rd
    → j.rd < 18
    → (do_csrr j (do_csrw i s)).proc.trapframe.gpr to ≡ int_of_u64 (s.proc.trapframe.gpr from)
do_csrr-do_csrw i j s r from to same h w p m rs1 rd lo hi =
    let v = get_trapframe s.proc.trapframe i.rs1 in
    let s' = next_instruction (csrw_write i.uimm v s) in
    let shape = csrw_write-shape i.uimm v s r in
    let stored : (s'.vmm.regs r).val ≡ v =
      rw (csrw_write_stores i.uimm v s r r w p h) (ground arith) in
    let seen =
      csr_register_1_complete s'.vmm j.uimm s'.vmm.exec_mode r (rw same h) (omega (arith, shape)) in
    rw (do_csrw_found i s r h) (
      rw (do_csrr_found j s' r seen) (
        gpr-csrr_write_trapframe s'.proc.trapframe to j.rd (s'.vmm.regs r).val lo hi rd
        ∙ ap int_of_u64 stored
        ∙ int_of_u64-get_trapframe s.proc.trapframe i.rs1
        ∙ get_trapframe-gpr s.proc.trapframe from i.rs1 rs1))

-- An ecall of user mode followed by an sret, with SPP clear, of the guest's kernel: the first goes
-- to the address in stvec, in supervisor mode, and the second back to user mode at the ecall, with
-- every register but sepc as it was.
pub do_sret-do_ecall :
    (s : State) (q : RegName)
    → s.vmm.exec_mode ≡ u_mode
    → (s.vmm.regs sstatus).val / 2 ^ 8 % 2 ≡ 0
    → ((do_ecall s).proc.trapframe.epc ≡ (s.vmm.regs stvec).val)
      × ((do_ecall s).vmm.exec_mode ≡ s_mode)
      × ((do_sret (do_ecall s)).proc ≡ s.proc)
      × ((do_sret (do_ecall s)).vmm.exec_mode ≡ u_mode)
      × (((do_sret (do_ecall s)).vmm.regs q).val
          ≡ (if slot q == slot sepc then s.proc.trapframe.epc else (s.vmm.regs q).val))
unfolding do_ecall do_sret
do_sret-do_ecall s q m p = ground arith

-- An ecall outside user mode, or an sret of supervisor mode with SPP set.
abbrev pub IsStuck : Instruction → State → Type 0
IsStuck i s =
    (i.funct3 ≡ 0)
    × ((i.uimm ≡ 0) × (s.vmm.exec_mode ≢ u_mode)
        ⊎ (i.uimm ≡ 0x102)
          × (s.vmm.exec_mode ≡ s_mode)
          × ((s.vmm.regs sstatus).val / 2 ^ 8 % 2 ≡ 1))

-- An ecall outside user mode, and an sret of supervisor mode with SPP set, leave the whole state as
-- it was, the program counter included: the guest traps at the same instruction again.
execute_stuck : (i : Instruction) (s : State) → IsStuck i s → execute i s ≡ ret s
unfolding execute do_ecall do_sret
execute_stuck i s h = ground arith
