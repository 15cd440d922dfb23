-- ===== src/Trap/State.antt =====
-- Project-4, kernel/trap-and-emulate.c: the virtual machine's privileged state, with the parts of
-- struct trapframe and struct proc (kernel/proc.h) that the emulator uses. A pointer to a register
-- of struct vm_virtual_state is the name of the field; likewise for the trapframe.
use cse_536_advanced_operati.Base.{ℕ, ◌+◌, Bool, true, ◌==◌, if◌then◌else◌}
use cse_536_advanced_operati.Vm.Memory.{Memory}
use cse_536_advanced_operati.Vm.Table.{PageTable}

abbrev pub u_mode : ℕ
u_mode = 0

abbrev pub s_mode : ℕ
s_mode = 1

abbrev pub m_mode : ℕ
m_mode = 2

-- struct vm_reg; `val` is a uint64.
pub record VmReg : Type 0 where
  pub code : ℕ
  pub mode : ℕ
  pub val : ℕ

pub data RegName : Type 0 where
  mtvec mstatus mepc medeleg mideleg mie mip mtval2 mcounteren mstatush : RegName
  mvendorid marchid mimpid mhartid mconfigptr mcause mscratch misa mtval mtinst : RegName
  sstatus sie sepc stvec satp sedeleg scounteren : RegName
  uepc utvec uscratch ustatus ucause ubadaddr uip uie : RegName
  pmpaddr : ℕ → RegName
  pmpcfg : ℕ → RegName

-- The place of a register in the struct, counted in registers.
abbrev pub slot : RegName → ℕ
slot mtvec = 0
slot mstatus = 1
slot mepc = 2
slot medeleg = 3
slot mideleg = 4
slot mie = 5
slot mip = 6
slot mtval2 = 7
slot mcounteren = 8
slot mstatush = 9
slot mvendorid = 10
slot marchid = 11
slot mimpid = 12
slot mhartid = 13
slot mconfigptr = 14
slot mcause = 15
slot mscratch = 16
slot misa = 17
slot mtval = 18
slot mtinst = 19
slot sstatus = 20
slot sie = 21
slot sepc = 22
slot stvec = 23
slot satp = 24
slot sedeleg = 25
slot scounteren = 26
slot uepc = 27
slot utvec = 28
slot uscratch = 29
slot ustatus = 30
slot ucause = 31
slot ubadaddr = 32
slot uip = 33
slot uie = 34
slot (pmpaddr i) = 35 + i
slot (pmpcfg i) = 51 + i

-- struct vm_virtual_state. Its `page_table` is never used.
pub record VmState : Type 0 where
  pub regs : RegName → VmReg
  pub exec_mode : ℕ
  pub vmm_pagetable : PageTable

-- `vmm->r.val = v`
abbrev pub set_val : VmState → RegName → ℕ → VmState
set_val vmm r v = record vmm {
  regs = λ q. if slot q == slot r then record (vmm.regs q) { val = v } else vmm.regs q;
}

-- The registers of struct trapframe that a guest instruction names.
pub data Gpr : Type 0 where
  ra sp gp tp t0 t1 t2 s0 s1 a0 a1 a2 a3 a4 a5 a6 a7 : Gpr
  s2 s3 s4 s5 s6 s7 s8 s9 s10 s11 t3 t4 t5 t6 : Gpr

-- The byte offset of a register in struct trapframe, in words of eight bytes.
abbrev pub offset : Gpr → ℕ
offset ra = 5
offset sp = 6
offset gp = 7
offset tp = 8
offset t0 = 9
offset t1 = 10
offset t2 = 11
offset s0 = 12
offset s1 = 13
offset a0 = 14
offset a1 = 15
offset a2 = 16
offset a3 = 17
offset a4 = 18
offset a5 = 19
offset a6 = 20
offset a7 = 21
offset s2 = 22
offset s3 = 23
offset s4 = 24
offset s5 = 25
offset s6 = 26
offset s7 = 27
offset s8 = 28
offset s9 = 29
offset s10 = 30
offset s11 = 31
offset t3 = 32
offset t4 = 33
offset t5 = 34
offset t6 = 35

pub record Trapframe : Type 0 where
  pub epc : ℕ
  pub gpr : Gpr → ℕ

abbrev pub set_gpr : Trapframe → Gpr → ℕ → Trapframe
set_gpr tf r v = record tf { gpr = λ q. if offset q == offset r then v else tf.gpr q }

-- struct proc, of the process that runs the virtual machine.
pub record Proc : Type 0 where
  pub killed : Bool
  pub sz : ℕ
  pub pagetable : PageTable
  pub trapframe : Trapframe

-- Everything that trap_and_emulate() reads or writes. `pmp_config` is the global of that name.
pub record State : Type 0 where
  pub vmm : VmState
  pub pmp_config : Bool
  pub proc : Proc
  pub memory : Memory

-- kill(p->pid) for the running process: the flag is set, and the process goes on until it returns
-- to usertrap().
abbrev pub kill : State → State
kill s = record s { proc = record s.proc { killed = true } }

abbrev pub set_reg : State → RegName → ℕ → State
set_reg s r v = record s { vmm = set_val s.vmm r v }

abbrev pub set_mode : State → ℕ → State
set_mode s m = record s { vmm = record s.vmm { exec_mode = m } }

abbrev pub set_frame : State → Trapframe → State
set_frame s tf = record s { proc = record s.proc { trapframe = tf } }

abbrev pub set_epc : State → ℕ → State
set_epc s a = set_frame s (record s.proc.trapframe { epc = a })
