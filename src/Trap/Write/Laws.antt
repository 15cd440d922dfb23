-- ===== src/Trap/Write/Laws.antt =====
-- Project-4, kernel/trap-and-emulate.c: what csrw_write() does with the mode of the guest and with
-- the registers, held against the codes of the CSRs and against the table of csr_register().
use cse_536_advanced_operati.Base.{
  ℕ, ◌+◌, ◌-◌, ◌/◌, ◌%◌, ◌<◌, ◌≡◌, refl, Bool, true, false, not, ◌&&◌, ◌||◌, inl, inr, Option, none,
  some, ltb, ◌==◌, if◌then◌else◌, find_row, all_rows, find_row_sound, holds_below, holds_below-at,
  arith, Bool-cases, Option-cases,
}
use cse_536_advanced_operati.Trap.State.{
  RegName, pmpaddr, pmpcfg, slot, State, u_mode, s_mode, m_mode,
}
use cse_536_advanced_operati.Trap.Csr.{csr_register_map_values, csr_register}
use cse_536_advanced_operati.Trap.Write.{
  Guard, only_m, s_or_m, only_u, write_branches, is_pmp, csrw_write,
}

-- The privilege that the code of a CSR encodes, in its bits 8 and 9.
abbrev pub level : ℕ → ℕ
level code = code / 256 % 4

-- The modes that may write a CSR of a level: machine mode the levels 3 and 1, supervisor mode level
-- 1, user mode level 0.
abbrev pub permits : ℕ → ℕ → Bool
permits level mode =
    if level == 3
    then mode == m_mode
    else if level == 1
    then (mode == s_mode || mode == m_mode)
    else mode == u_mode

-- The codes that a branch of csrw_write() takes.
abbrev pub is_writable : ℕ → Bool
is_writable code =
    is_pmp code || elim (find_row write_branches code) [ none ↦ false | some _ ↦ true ]

abbrev level_of : Guard → ℕ
level_of only_m = 3
level_of s_or_m = 1
level_of only_u = 0

same_register : Option RegName → RegName → Bool
same_register none r = false
same_register (some q) r = slot q == slot r

row_agrees : ℕ → Guard × RegName → Bool
row_agrees code (g, r) = same_register (csr_register code) r && level code == level_of g

rows_agree : all_rows row_agrees write_branches ≡ true
unfolding all_rows row_agrees same_register csr_register csr_register_map_values find_row
    write_branches
rows_agree = refl

-- A branch writes the register that the table has for its code, under a guard for its level.
branch_facts :
    (code : ℕ) (g : Guard) (r : RegName)
    → find_row write_branches code ≡ some (g, r)
    → (same_register (csr_register code) r ≡ true) × (level code ≡ level_of g)
unfolding row_agrees
branch_facts code g r h =
    ground (arith, find_row_sound row_agrees write_branches code (g, r) rows_agree h)

pmp_target : ℕ → RegName
pmp_target k = if ltb k 16 then pmpcfg k else pmpaddr (k - 16)

pmp_agrees : holds_below (λ k. same_register (csr_register (0x3a0 + k)) (pmp_target k)) 32 ≡ true
unfolding holds_below same_register csr_register csr_register_map_values find_row pmp_target
pmp_agrees = refl

pmp_facts : (k : ℕ) → k < 32 → same_register (csr_register (0x3a0 + k)) (pmp_target k) ≡ true
pmp_facts k h = holds_below-at _ 32 k pmp_agrees h

-- A csrw of a live process keeps it alive exactly where some branch takes the CSR and the mode may
-- write CSRs of the level that the code encodes.
pub csrw_write-killed :
    (code v : ℕ) (s : State)
    → s.proc.killed ≡ false
    → (csrw_write code v s).proc.killed
      ≡ not (is_writable code && permits (level code) s.vmm.exec_mode)
unfolding csrw_write
csrw_write-killed code v s k = elim (Option-cases (find_row write_branches code)) [
  | inl e ↦ ground arith
  | inr ((g, r), e) ↦ ground (arith, branch_facts code g r e)
]

slot-eq :
    (o : Option RegName) (r t : RegName) → o ≡ some r → same_register o t ≡ true → slot r ≡ slot t
unfolding same_register
slot-eq none r t e h = absurd (cc)
slot-eq (some q) r t e h = ground arith

-- What a write through a branch, and one to a PMP register, leaves at the register `q`.
branch_stores :
    (code v : ℕ) (s : State) (g : Guard) (t q : RegName)
    → is_pmp code ≡ false
    → find_row write_branches code ≡ some (g, t)
    → ((csrw_write code v s).vmm.regs q).val ≡ (if slot q == slot t then v else (s.vmm.regs q).val)
unfolding csrw_write
branch_stores code v s g t q n e = rw n (rw e (ground arith))

pmp_stores :
    (code v : ℕ) (s : State) (q : RegName)
    → is_pmp code ≡ true
    → s.vmm.exec_mode ≡ m_mode
    → ((csrw_write code v s).vmm.regs q).val
      ≡ (if slot q == slot (pmp_target (code - 0x3a0)) then v else (s.vmm.regs q).val)
unfolding csrw_write pmp_target
pmp_stores code v s q p m = ground arith

pmp_row :
    (code k : ℕ)
    → code ≡ 0x3a0 + k
    → k < 32
    → same_register (csr_register code) (pmp_target k) ≡ true
pmp_row code k e h = rw e (pmp_facts k h)

pmp_slot :
    (code : ℕ) (r : RegName)
    → is_pmp code ≡ true
    → csr_register code ≡ some r
    → slot r ≡ slot (pmp_target (code - 0x3a0))
pmp_slot code r p h =
    slot-eq (csr_register code) r (pmp_target (code - 0x3a0)) h
      (pmp_row code (code - 0x3a0) (ground arith) (ground arith))

pmp_permits :
    (code mode : ℕ) → is_pmp code ≡ true → permits (level code) mode ≡ true → mode ≡ m_mode
pmp_permits code mode p h = ground arith

writable_branch :
    (code : ℕ)
    → is_writable code ≡ true
    → is_pmp code ≡ false
    → find_row write_branches code ≡ none
    → ⊥
writable_branch code w n e = ground arith

-- After a write by a mode that the level permits, the register that csr_register() finds for the
-- code holds the value, and every other register is as it was.
pub csrw_write_stores :
    (code v : ℕ) (s : State) (r q : RegName)
    → is_writable code ≡ true
    → permits (level code) s.vmm.exec_mode ≡ true
    → csr_register code ≡ some r
    → ((csrw_write code v s).vmm.regs q).val ≡ (if slot q == slot r then v else (s.vmm.regs q).val)
csrw_write_stores code v s r q w p h = elim (Bool-cases (is_pmp code)) [
  | inl y ↦ rw (pmp_slot code r y h) (pmp_stores code v s q y (pmp_permits code _ y p))
  | inr n ↦ elim (Option-cases (find_row write_branches code)) [
    | inl e ↦ absurd (writable_branch code w n e)
    | inr ((g, t), e) ↦
        rw (slot-eq (csr_register code) r t h (branch_facts code g t e).0)
          (branch_stores code v s g t q n e)
  ]
]
