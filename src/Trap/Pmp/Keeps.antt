-- ===== src/Trap/Pmp/Keeps.antt =====
-- Project-4, kernel/trap-and-emulate.c: what pmp_configuration(M_MODE) leaves alone.
use cse_536_advanced_operati.Base.{
  ℕ, ◌≡◌, true, not, ◌||◌, ◌==◌, if◌then◌else◌, ret, >>=-eq-ret, arith, ap, ◌∙◌,
}
use cse_536_advanced_operati.Trap.State.{State, pmpaddr, pmpcfg, m_mode}
use cse_536_advanced_operati.Trap.Pmp.{
  pmp_pagetable_configuration, pmp_set_permissions, pmp_configuration, pmp_base, pmp_limit, protect,
  shift_address, pmp_cfg_bits,
}

-- The registers, the mode and the process of one state are those of another.
pub record Keeps (s t : State) : Type 0 where
  pub regs : t.vmm.regs ≡ s.vmm.regs
  pub exec_mode : t.vmm.exec_mode ≡ s.vmm.exec_mode
  pub proc : t.proc ≡ s.proc

table-Keeps :
    (a b : ℕ) (s t : State)
    → pmp_pagetable_configuration a b m_mode s ≡ ret t
    → Keeps s t × (t.pmp_config ≡ s.pmp_config)
unfolding pmp_pagetable_configuration
table-Keeps a b s t h = ground arith

permissions-Keeps :
    (a c b : ℕ) (s t : State)
    → pmp_set_permissions a c b s ≡ ret t
    → Keeps s t × (t.pmp_config ≡ true)
unfolding pmp_set_permissions
permissions-Keeps a c b s t h = ground arith

protect-Keeps :
    (s t : State)
    → protect s ≡ ret t
    → Keeps s t × (t.pmp_config ≡ (s.pmp_config || not ((s.vmm.regs (pmpaddr 0)).val == 0)))
unfolding protect
protect-Keeps s t h = ground (
  arith,
  permissions-Keeps
      (if (s.vmm.regs (pmpaddr 1)).val == 0
        then pmp_base
        else shift_address (s.vmm.regs (pmpaddr 1)).val)
      (pmp_cfg_bits (s.vmm.regs (pmpcfg 0)).val) (shift_address (s.vmm.regs (pmpaddr 0)).val) s t,
)

Keeps-trans : (s u t : State) → Keeps s u → Keeps u t → Keeps s t
Keeps-trans s u t k l = record {
  regs = l.regs ∙ k.regs;
  exec_mode = l.exec_mode ∙ k.exec_mode;
  proc = l.proc ∙ k.proc;
}

-- A run of pmp_configuration(M_MODE) that returns keeps the registers, the mode and the process, and
-- sets `pmp_config` where pmpaddr0 is not 0.
pub pmp_configuration-Keeps :
    (s t : State)
    → pmp_configuration m_mode s ≡ ret t
    → Keeps s t × (t.pmp_config ≡ (s.pmp_config || not ((s.vmm.regs (pmpaddr 0)).val == 0)))
unfolding pmp_configuration
pmp_configuration-Keeps s t h =
    let (u, e, g) =
      >>=-eq-ret (pmp_pagetable_configuration pmp_base pmp_limit m_mode s) protect h in
    let k = table-Keeps pmp_base pmp_limit s u e in
    let l = protect-Keeps u t g in
    (
      Keeps-trans s u t k.0 l.0,
      l.1
          ∙ ap (λ r. u.pmp_config || not ((r (pmpaddr 0)).val == 0)) k.0.regs
          ∙ ap (λ b. b || not ((s.vmm.regs (pmpaddr 0)).val == 0)) k.1,
    )
