-- ===== src/Trap/Csr/Search.antt =====
-- Project-4, kernel/trap-and-emulate.c: what the searches csr_register() and csr_register_1() find.
use cse_536_advanced_operati.Base.{ℕ, ◌≤◌, ◌≡◌, Option, none, some, List, [], ◌∷◌, find_row, arith}
use cse_536_advanced_operati.Trap.State.{RegName, VmState}
use cse_536_advanced_operati.Trap.Csr.{
  csr_register_map_values, search_1, csr_register_1, csr_register, or_null,
}

-- Each row's register carries the code of the row.
abbrev pub CodesMatch : VmState → List (ℕ × Option RegName) → Type 0
CodesMatch vmm [] = Unit {0}
CodesMatch vmm ((k, none) ∷ rows) = CodesMatch vmm rows
CodesMatch vmm ((k, some r) ∷ rows) = ((vmm.regs r).code ≡ k) × CodesMatch vmm rows

search_1_sound :
    (vmm : VmState) (rows : List (ℕ × Option RegName)) (code mode : ℕ) (r : RegName)
    → CodesMatch vmm rows
    → search_1 vmm rows code mode ≡ some r
    → ((vmm.regs r).code ≡ code) × ((vmm.regs r).mode ≤ mode)
unfolding search_1
search_1_sound vmm [] code mode r c h = absurd (cc)
search_1_sound vmm ((k, none) ∷ rows) code mode r c h =
    ground (arith, search_1_sound vmm rows code mode r)
search_1_sound vmm ((k, some q) ∷ rows) code mode r c h =
    ground (arith, search_1_sound vmm rows code mode r)

search_1_complete :
    (vmm : VmState) (rows : List (ℕ × Option RegName)) (code mode : ℕ) (r : RegName)
    → or_null (find_row rows code) ≡ some r
    → (vmm.regs r).mode ≤ mode
    → search_1 vmm rows code mode ≡ some r
unfolding search_1 find_row or_null
search_1_complete vmm [] code mode r h m = absurd (cc)
search_1_complete vmm ((k, none) ∷ rows) code mode r h m =
    ground (arith, search_1_complete vmm rows code mode r)
search_1_complete vmm ((k, some q) ∷ rows) code mode r h m =
    ground (arith, search_1_complete vmm rows code mode r)

-- Where every row of the table names a register that carries the row's code, a register that
-- csr_register_1() returns carries the code asked for, and its mode is at most the current one.
pub csr_register_1_sound :
    (vmm : VmState) (code mode : ℕ) (r : RegName)
    → CodesMatch vmm csr_register_map_values
    → csr_register_1 vmm code mode ≡ some r
    → ((vmm.regs r).code ≡ code) × ((vmm.regs r).mode ≤ mode)
unfolding csr_register_1
csr_register_1_sound vmm code mode r = search_1_sound vmm csr_register_map_values code mode r

pub csr_register_1_complete :
    (vmm : VmState) (code mode : ℕ) (r : RegName)
    → csr_register code ≡ some r
    → (vmm.regs r).mode ≤ mode
    → csr_register_1 vmm code mode ≡ some r
unfolding csr_register_1 csr_register
csr_register_1_complete vmm code mode r = search_1_complete vmm csr_register_map_values code mode r
