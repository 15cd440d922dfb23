-- ===== src/Trap/Tests.antt =====
-- Project-4, kernel/trap-and-emulate.c: runs on concrete states, and the theorems at inputs where
-- their hypotheses hold.
use cse_536_advanced_operati.Base.{
  ℕ, zero, ◌≤◌, ◌≡◌, refl, true, false, [], ◌∷◌, ret, find_row, arith,
}
use cse_536_advanced_operati.Vm.Memory.{Memory, memset}
use cse_536_advanced_operati.Vm.Table.{PageTable, empty_table, walk, walkaddr, read_bytes, copyin}
use cse_536_advanced_operati.Trap.State.{State, Proc, a0, a1, mtvec, sepc, u_mode, s_mode, m_mode}
use cse_536_advanced_operati.Trap.Csr.{csr_register_map_values, csr_register_1, csr_register}
use cse_536_advanced_operati.Trap.Write.{csrw_write, write_branches}
use cse_536_advanced_operati.Trap.Write.Laws.{csrw_write-killed, csrw_write_stores}
use cse_536_advanced_operati.Trap.Pmp.{pmp_set_permissions}
use cse_536_advanced_operati.Trap.Pmp.Permissions.{pmp_set_permissions_lem}
use cse_536_advanced_operati.Trap.Init.{initial_regs, trap_and_emulate_init}
use cse_536_advanced_operati.Trap.Emulate.{
  Instruction, decode, from_bytes, do_ecall, do_sret, do_csrr, do_csrw, execute, trap_and_emulate,
}
use cse_536_advanced_operati.Trap.Emulate.Modes.{exec_mode-execute}
use cse_536_advanced_operati.Trap.Emulate.Access.{do_csrr-do_csrw, do_sret-do_ecall}
use cse_536_advanced_operati.Trap.Emulate.Reach.{Reach, Reach-csr_register_1}

-- A page table with one user page: virtual page 0 at the physical page 0x80300000, readable,
-- writable and executable.
abbrev one_page : PageTable
one_page = record {
  mid = λ _. true;
  low = λ _. true;
  leaf = λ k. elim k [ zero ↦ 0x200c001f | _ ↦ 0 ];
}

abbrev memory : Memory
memory = record { byte = λ _. 0; freelist = 0x8040_0000 ∷ []; end_addr = 0x8002_0000 }

-- Every general register holds 5.
abbrev guest : Proc
guest = record {
  killed = false;
  sz = 4096;
  pagetable = one_page;
  trapframe = record { epc = 16; gpr = λ _. 5 };
}

abbrev in_mode : ℕ → State
in_mode m = record {
  vmm = record { regs = initial_regs; exec_mode = m; vmm_pagetable = one_page };
  pmp_config = false;
  proc = guest;
  memory = memory;
}

-- csrw mtvec, x11 and csrr x10, mtvec
abbrev write_mtvec : Instruction
write_mtvec = record { rd = 0; funct3 = 1; rs1 = 11; uimm = 0x305 }

abbrev read_mtvec : Instruction
read_mtvec = record { rd = 10; funct3 = 2; rs1 = 0; uimm = 0x305 }

abbrev ecall : Instruction
ecall = record { rd = 0; funct3 = 0; rs1 = 0; uimm = 0 }

-- 0x30559073 is csrw mtvec, a1.
decode_example : decode 0x30559073 ≡ write_mtvec
unfolding decode
decode_example = refl

-- A page of zeros decodes as an ecall.
fetch_ecall : trap_and_emulate (in_mode u_mode) ≡ execute ecall (in_mode u_mode)
unfolding trap_and_emulate copyin walkaddr walk read_bytes from_bytes decode
fetch_ecall = refl

csrw_write-killed_example : (csrw_write 0x305 7 (in_mode u_mode)).proc.killed ≡ true
unfolding find_row write_branches
csrw_write-killed_example = csrw_write-killed 0x305 7 (in_mode u_mode) refl

csrw_write_stores_example : ((csrw_write 0x305 7 (in_mode m_mode)).vmm.regs mtvec).val ≡ 7
unfolding find_row write_branches csr_register csr_register_map_values
csrw_write_stores_example = csrw_write_stores 0x305 7 (in_mode m_mode) mtvec mtvec refl refl refl

exec_mode-execute_example : (do_ecall (in_mode u_mode)).vmm.exec_mode ≡ s_mode
unfolding execute
exec_mode-execute_example =
    exec_mode-execute ecall (in_mode u_mode) (do_ecall (in_mode u_mode)) refl

abbrev booted : State
booted = record (in_mode m_mode) {
  vmm = record { regs = initial_regs; exec_mode = m_mode; vmm_pagetable = empty_table };
  memory = record {
    byte = memset (λ _. 0) 0x8040_0000 5 4096;
    freelist = [];
    end_addr = 0x8002_0000;
  };
}

init_runs : trap_and_emulate_init (in_mode u_mode) ≡ ret booted
unfolding trap_and_emulate_init
init_runs = refl

Reach-csr_register_1_example :
    (booted.vmm.exec_mode ≤ m_mode)
    × ((booted.vmm.regs mtvec).code ≡ 0x305)
    × ((booted.vmm.regs mtvec).mode ≤ booted.vmm.exec_mode)
unfolding csr_register_1 csr_register_map_values initial_regs
Reach-csr_register_1_example =
    Reach-csr_register_1 booted 0x305 mtvec (Reach.start (in_mode u_mode) booted init_runs) refl

-- x11 goes through mtvec to x10, of which the high half is lost.
abbrev wide : State
wide = record (in_mode m_mode) {
  proc = record guest { trapframe = record { epc = 16; gpr = λ _. 0x1_0000_0005 } };
}

do_csrr-do_csrw_example : (do_csrr read_mtvec (do_csrw write_mtvec wide)).proc.trapframe.gpr a0 ≡ 5
unfolding csr_register csr_register_map_values find_row initial_regs write_branches
do_csrr-do_csrw_example =
    do_csrr-do_csrw write_mtvec read_mtvec wide mtvec a1 a0 refl refl refl refl (omega arith) refl
      refl (omega arith) (omega arith)

do_sret-do_ecall_example :
    ((do_ecall (in_mode u_mode)).proc.trapframe.epc ≡ 0)
    × ((do_ecall (in_mode u_mode)).vmm.exec_mode ≡ s_mode)
    × ((do_sret (do_ecall (in_mode u_mode))).proc ≡ guest)
    × ((do_sret (do_ecall (in_mode u_mode))).vmm.exec_mode ≡ u_mode)
    × (((do_sret (do_ecall (in_mode u_mode))).vmm.regs sepc).val ≡ 16)
unfolding initial_regs
do_sret-do_ecall_example = do_sret-do_ecall (in_mode u_mode) sepc refl refl

-- Page 0 with a configuration that lets it be read only.
pmp_set_permissions_lem_example :
    (t : State) × (pmp_set_permissions 4096 2 0 (in_mode m_mode) ≡ ret t)
    × (t.vmm.vmm_pagetable.leaf 0 ≡ 0x200c0003)
    × (t.vmm.vmm_pagetable.mid ≡ one_page.mid)
    × (t.vmm.vmm_pagetable.low ≡ one_page.low)
    × (t.vmm.regs ≡ initial_regs)
    × (t.proc ≡ guest)
    × (t.pmp_config ≡ true)
pmp_set_permissions_lem_example = pmp_set_permissions_lem 4096 2 0 0 (in_mode m_mode) (omega arith)
