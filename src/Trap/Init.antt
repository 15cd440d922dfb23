-- ===== src/Trap/Init.antt =====
-- Project-4, kernel/trap-and-emulate.c: trap_and_emulate_init().
use cse_536_advanced_operati.Base.{ℕ, ◌+◌, none, some, ltb, if◌then◌else◌, Outcome, ret, panic}
use cse_536_advanced_operati.Vm.Memory.{kalloc}
use cse_536_advanced_operati.Vm.Table.{empty_table}
use cse_536_advanced_operati.Trap.State.{
  RegName, mtvec, mstatus, mepc, medeleg, mideleg, mie, mip, mtval2, mcounteren, mstatush,
  mvendorid, marchid, mimpid, mhartid, mconfigptr, mcause, mscratch, misa, mtval, mtinst, sstatus,
  sie, sepc, stvec, satp, sedeleg, scounteren, uepc, utvec, uscratch, ustatus, ucause, ubadaddr,
  uip, uie, pmpaddr, pmpcfg, VmReg, State, u_mode, s_mode, m_mode,
}

reg : ℕ → ℕ → VmReg
reg code mode = record { code = code; mode = mode; val = 0 }

-- What the assignments leave in each register, after the memset to 0.
unfoldable pub initial_regs : RegName → VmReg
unfolding reg
initial_regs mtval2 = reg 0x34b m_mode
initial_regs mcause = reg 0x342 m_mode
initial_regs mstatush = reg 0x310 m_mode
initial_regs mvendorid = record { code = 0xf11; mode = m_mode; val = 0x637365353336 }
initial_regs marchid = reg 0xf12 m_mode
initial_regs mimpid = reg 0xf13 m_mode
initial_regs mhartid = reg 0xf14 m_mode
initial_regs mconfigptr = reg 0xf15 m_mode
initial_regs mtvec = reg 0x305 m_mode
initial_regs mstatus = reg 0x300 m_mode
initial_regs mepc = reg 0x341 m_mode
initial_regs medeleg = reg 0x302 m_mode
initial_regs mideleg = reg 0x303 m_mode
initial_regs mie = reg 0x304 m_mode
initial_regs mip = reg 0x344 m_mode
initial_regs mcounteren = reg 0x306 m_mode
initial_regs mscratch = reg 0x140 m_mode
initial_regs misa = reg 0x301 m_mode
initial_regs mtval = reg 0x343 m_mode
initial_regs mtinst = reg 0x34a m_mode
initial_regs sstatus = reg 0x100 s_mode
initial_regs sedeleg = reg 0x102 s_mode
initial_regs sie = reg 0x104 s_mode
initial_regs stvec = reg 0x105 s_mode
initial_regs scounteren = reg 0x106 s_mode
initial_regs sepc = reg 0x141 s_mode
initial_regs satp = reg 0x180 s_mode
initial_regs uepc = reg 0x041 u_mode
initial_regs ucause = reg 0x042 u_mode
initial_regs ubadaddr = reg 0x043 u_mode
initial_regs uip = reg 0x044 u_mode
initial_regs ustatus = reg 0x000 u_mode
initial_regs uie = reg 0x004 u_mode
initial_regs utvec = reg 0x005 u_mode
initial_regs uscratch = reg 0x040 u_mode
initial_regs (pmpcfg i) = if ltb i 16 then reg (0x3a0 + i) m_mode else reg 0 0
initial_regs (pmpaddr i) = if ltb i 16 then reg (0x3b0 + i) m_mode else reg 0 0

-- The structure takes a page; with none left the kernel panics.
unfoldable pub trap_and_emulate_init : State → Outcome State
unfolding kalloc
trap_and_emulate_init s =
    let (page, m) = kalloc s.memory in
    elim page [
      | none ↦ panic
      | some pa ↦ ret (record s {
        vmm = record { regs = initial_regs; exec_mode = m_mode; vmm_pagetable = empty_table };
        memory = m;
      })
    ]
