-- ===== src/Trap/Emulate/Reach.antt =====
-- Project-4, kernel/trap-and-emulate.c: the states that the monitor can come to, from
-- trap_and_emulate_init() by traps, with the guest and the rest of the kernel free to change the
-- process and the memory in between; and what holds in all of them.
use cse_536_advanced_operati.Base.{
  ℕ, ◌/◌, ◌%◌, ◌^◌, ◌≤◌, ◌≡◌, ap, ◌∙◌, Option, none, some, List, [], ◌∷◌, if◌then◌else◌, ret,
  >>=-eq-ret, arith,
}
use cse_536_advanced_operati.Vm.Memory.{Memory}
use cse_536_advanced_operati.Vm.Table.{copyin, empty_table}
use cse_536_advanced_operati.Trap.State.{State, Proc, RegName, VmState, kill, mstatus, m_mode}
use cse_536_advanced_operati.Trap.Csr.{csr_register_map_values, csr_register_1}
use cse_536_advanced_operati.Trap.Csr.Search.{CodesMatch, csr_register_1_sound}
use cse_536_advanced_operati.Trap.Write.{csrw_write}
use cse_536_advanced_operati.Trap.Pmp.{pmp_configuration}
use cse_536_advanced_operati.Trap.Pmp.Keeps.{pmp_configuration-Keeps}
use cse_536_advanced_operati.Trap.Init.{initial_regs, trap_and_emulate_init}
use cse_536_advanced_operati.Trap.Emulate.{
  Instruction, decode, from_bytes, do_ecall, do_sret, do_mret, leave_m, do_csrr, do_csrw, execute,
  trap_and_emulate,
}
use cse_536_advanced_operati.Trap.Emulate.Modes.{next_mode, exec_mode-execute}

pub data Reach : State → Type 0 where
  start : (s t : State) → trap_and_emulate_init s ≡ ret t → Reach t
  guest : (s : State) (p : Proc) (m : Memory) → Reach s → Reach (record s { proc = p; memory = m })
  trap : (s t : State) → trap_and_emulate s ≡ ret t → Reach s → Reach t

-- The code of a register, which no step assigns.
abbrev code_of : State → RegName → ℕ
code_of s q = (s.vmm.regs q).code

code_of-csrw_write :
    (c v : ℕ) (s : State) (q : RegName) → code_of (csrw_write c v s) q ≡ code_of s q
unfolding csrw_write
code_of-csrw_write c v s q = ground arith

code_of-do_csrr :
    (i : Instruction) (s : State) (q : RegName) → code_of (do_csrr i s) q ≡ code_of s q
unfolding do_csrr
code_of-do_csrr i s q = ground arith

code_of-do_csrw :
    (i : Instruction) (s : State) (q : RegName) → code_of (do_csrw i s) q ≡ code_of s q
unfolding do_csrw
code_of-do_csrw i s q = grind (arith, code_of-csrw_write)

code_of-leave_m : (mpp : ℕ) (s : State) (q : RegName) → code_of (leave_m mpp s) q ≡ code_of s q
unfolding leave_m
code_of-leave_m mpp s q = ground arith

code_of-ret :
    (u t : State) (q : RegName)
    → ret (if u.pmp_config then kill u else u) ≡ ret t
    → code_of t q ≡ code_of u q
code_of-ret u t q h = ground arith

code_of-do_mret : (s t : State) (q : RegName) → do_mret s ≡ ret t → code_of t q ≡ code_of s q
unfolding do_mret
code_of-do_mret s t q h =
    let mpp = (s.vmm.regs mstatus).val / 2 ^ 11 % 4 in
    let (u, e, g) = >>=-eq-ret (pmp_configuration m_mode (leave_m mpp s)) _ h in
    let k = (pmp_configuration-Keeps (leave_m mpp s) u e).0 in
    code_of-ret u t q g ∙ ap (λ r. (r q).code) k.regs ∙ code_of-leave_m mpp s q

code_of-do_ecall : (s : State) (q : RegName) → code_of (do_ecall s) q ≡ code_of s q
unfolding do_ecall
code_of-do_ecall s q = ground arith

code_of-do_sret : (s : State) (q : RegName) → code_of (do_sret s) q ≡ code_of s q
unfolding do_sret
code_of-do_sret s q = ground arith

code_of-execute :
    (i : Instruction) (s t : State) (q : RegName) → execute i s ≡ ret t → code_of t q ≡ code_of s q
unfolding execute
code_of-execute i s t q h = ground (
  arith,
  code_of-do_ecall s q,
  code_of-do_sret s q,
  code_of-do_mret s t q,
  code_of-do_csrr i s q,
  code_of-do_csrw i s q,
)

CodesMatch-same :
    (v w : VmState) (rows : List (ℕ × Option RegName))
    → ((q : RegName) → (w.regs q).code ≡ (v.regs q).code)
    → CodesMatch v rows
    → CodesMatch w rows
CodesMatch-same v w [] e c = tt
CodesMatch-same v w ((k, none) ∷ rows) e c = CodesMatch-same v w rows e c
CodesMatch-same v w ((k, some r) ∷ rows) e c = (e r ∙ c.0, CodesMatch-same v w rows e c.1)

-- Every row of the table names a register with the row's code, and the mode is one of the three.
pub record Inv (s : State) : Type 0 where
  pub codes : CodesMatch s.vmm csr_register_map_values
  pub mode : s.vmm.exec_mode ≤ m_mode

abbrev initial_vmm : VmState
initial_vmm = record { regs = initial_regs; exec_mode = m_mode; vmm_pagetable = empty_table }

initial_codes : CodesMatch initial_vmm csr_register_map_values
unfolding csr_register_map_values initial_regs
initial_codes = omega arith

init_state :
    (s t : State)
    → trap_and_emulate_init s ≡ ret t
    → (t.vmm.regs ≡ initial_regs) × (t.vmm.exec_mode ≡ m_mode)
unfolding trap_and_emulate_init
init_state s t h = ground arith

init-Inv : (s t : State) → trap_and_emulate_init s ≡ ret t → Inv t
init-Inv s t h =
    let (e, m) = init_state s t h in
    record {
      codes =
          CodesMatch-same initial_vmm t.vmm csr_register_map_values (λ q. ap (λ r. (r q).code) e)
            initial_codes;
      mode = omega arith;
    }

next_mode-le : (i : Instruction) (s : State) → s.vmm.exec_mode ≤ m_mode → next_mode i s ≤ m_mode
next_mode-le i s h = ground arith

execute-Inv : (i : Instruction) (s t : State) → execute i s ≡ ret t → Inv s → Inv t
execute-Inv i s t h v = record {
  codes =
      CodesMatch-same s.vmm t.vmm csr_register_map_values (λ q. code_of-execute i s t q h) v.codes;
  mode = omega (arith, exec_mode-execute i s t h, next_mode-le i s v.mode);
}

fetched-Inv :
    (s t : State) (fetched : Option (List ℕ))
    → elim fetched [ none ↦ ret (kill s) | some bytes ↦ execute (decode (from_bytes bytes)) s ]
      ≡ ret t
    → Inv s
    → Inv t
fetched-Inv s t none h v =
    let k : t.vmm ≡ s.vmm = ground arith in
    record {
      codes =
          CodesMatch-same s.vmm t.vmm csr_register_map_values (λ q. ap (λ w. (w.regs q).code) k)
            v.codes;
      mode = ground arith;
    }
fetched-Inv s t (some bytes) h v = execute-Inv (decode (from_bytes bytes)) s t h v

trap_and_emulate-Inv : (s t : State) → trap_and_emulate s ≡ ret t → Inv s → Inv t
unfolding trap_and_emulate
trap_and_emulate-Inv s t h v =
    let (f, e, g) = >>=-eq-ret (copyin s.proc.pagetable s.memory s.proc.trapframe.epc 8) _ h in
    fetched-Inv s t f g v

pub Reach-Inv : (s : State) → Reach s → Inv s
Reach-Inv _ (start s t e) = init-Inv s t e
Reach-Inv _ (guest s p m r) = let v = Reach-Inv s r in record { codes = v.codes; mode = v.mode }
Reach-Inv _ (trap s t e r) = trap_and_emulate-Inv s t e (Reach-Inv s r)

-- In every state that the monitor comes to, the mode is one of the three, and a register that
-- csr_register_1() gives the guest carries the code asked for and asks for no more than that mode.
pub Reach-csr_register_1 :
    (s : State) (code : ℕ) (r : RegName)
    → Reach s
    → csr_register_1 s.vmm code s.vmm.exec_mode ≡ some r
    → (s.vmm.exec_mode ≤ m_mode)
      × ((s.vmm.regs r).code ≡ code)
      × ((s.vmm.regs r).mode ≤ s.vmm.exec_mode)
Reach-csr_register_1 s code r reach h =
    let v = Reach-Inv s reach in
    let (c, m) = csr_register_1_sound s.vmm code s.vmm.exec_mode r v.codes h in (v.mode, c, m)
