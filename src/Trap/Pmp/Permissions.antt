-- ===== src/Trap/Pmp/Permissions.antt =====
-- Project-4, kernel/trap-and-emulate.c: which entries pmp_set_permissions() changes, and to what.
use cse_536_advanced_operati.Base.{
  ℕ, zero, suc, ◌+◌, ◌-◌, ◌*◌, ◌/◌, ◌%◌, ◌^◌, ◌≤◌, ◌<◌, ◌≡◌, refl, ap, ◌∙◌, Bool, true, ◌&&◌, ltb,
  leb, if◌then◌else◌, Outcome, ret, has_bit, arith, ℕ_discrete,
}
use cse_536_advanced_operati.Vm.Memory.{page_size}
use cse_536_advanced_operati.Vm.Table.{
  PageTable, put_leaf, walk, max_va, pte_v, pte_r, pte_w, pte_x, pa2pte, pte2pa,
}
use cse_536_advanced_operati.Trap.State.{State}
use cse_536_advanced_operati.Trap.Pmp.{
  pages, pmp_entry, pmp_set_page, pmp_set_pages, pmp_set_permissions,
}

-- The entry of a virtual page that the tree holds, and that is valid.
abbrev pub is_mapped : PageTable → ℕ → Bool
is_mapped pt vpn = pt.mid (vpn / 2 ^ 18) && pt.low (vpn / 2 ^ 9) && has_bit pte_v (pt.leaf vpn)

-- The entry of page `vpn` once `n` pages from `first` on have been given the configuration.
abbrev pub protected : ℕ → ℕ → ℕ → PageTable → ℕ → ℕ
protected cfg first n pt vpn =
    if leb first vpn && ltb vpn (first + n) && is_mapped pt vpn
    then pmp_entry cfg (pt.leaf vpn)
    else pt.leaf vpn

record Protects (cfg first n : ℕ) (pt : PageTable) (o : Outcome PageTable) : Type 0 where
  table : PageTable
  returns : o ≡ ret table
  same_mid : table.mid ≡ pt.mid
  same_low : table.low ≡ pt.low
  leaves : (vpn : ℕ) → table.leaf vpn ≡ protected cfg first n pt vpn

page_table : ℕ → ℕ → PageTable → PageTable
page_table cfg i pt =
    if is_mapped pt (i / 4096)
    then put_leaf pt (i / 4096) (pmp_entry cfg (pt.leaf (i / 4096)))
    else pt

set_page_lem :
    (cfg i : ℕ) (pt : PageTable) → i < max_va → pmp_set_page cfg i pt ≡ ret (page_table cfg i pt)
unfolding pmp_set_page walk page_table
set_page_lem cfg i pt h =
    let mid : i / 2 ^ 30 ≡ i / 4096 / 2 ^ 18 = omega arith in
    let low : i / 2 ^ 21 ≡ i / 4096 / 2 ^ 9 = omega arith in rw (mid, low) (ground arith)

page_table_leaf :
    (cfg i vpn : ℕ) (pt : PageTable)
    → (page_table cfg i pt).leaf vpn ≡ protected cfg (i / 4096) 1 pt vpn
unfolding page_table
page_table_leaf cfg i vpn pt = elim (ℕ_discrete vpn (i / 4096)) [
  | yes e ↦ rw e (ground arith)
  | no n ↦ ground arith
]

page_table_tree :
    (cfg i : ℕ) (pt : PageTable)
    → ((page_table cfg i pt).mid ≡ pt.mid) × ((page_table cfg i pt).low ≡ pt.low)
unfolding page_table
page_table_tree cfg i pt = ground arith

Protects-zero : (cfg first : ℕ) (pt : PageTable) → Protects cfg first 0 pt (ret pt)
Protects-zero cfg first pt = record {
  table = pt;
  returns = refl;
  same_mid = refl;
  same_low = refl;
  leaves = λ vpn. ground arith;
}

protected_step :
    (cfg first n vpn : ℕ) (pt pt' : PageTable)
    → pt'.mid ≡ pt.mid
    → pt'.low ≡ pt.low
    → ((k : ℕ) → pt'.leaf k ≡ protected cfg first 1 pt k)
    → protected cfg (first + 1) n pt' vpn ≡ protected cfg first (suc n) pt vpn
protected_step cfg first n vpn pt pt' m l h = rw (m, l, h vpn) (ground arith)

pmp_set_pages_lem :
    (n cfg i : ℕ) (pt : PageTable)
    → i / 4096 + n ≤ 2 ^ 26
    → Protects cfg (i / 4096) n pt (pmp_set_pages n cfg i pt)
unfolding pmp_set_pages
pmp_set_pages_lem zero cfg i pt h = Protects-zero cfg (i / 4096) pt
pmp_set_pages_lem (suc n) cfg i pt h =
    let pt' = page_table cfg i pt in
    let next = pmp_set_pages_lem n cfg (i + page_size) pt' (omega arith) in
    let tree = page_table_tree cfg i pt in
    let up : (i + page_size) / 4096 ≡ i / 4096 + 1 = omega arith in
    record {
      table = next.table;
      returns = rw (set_page_lem cfg i pt (omega arith)) next.returns;
      same_mid = next.same_mid ∙ tree.0;
      same_low = next.same_low ∙ tree.1;
      leaves = λ vpn.
          next.leaves vpn
          ∙ ap (λ a. protected cfg a n pt' vpn) up
          ∙ protected_step cfg (i / 4096) n vpn pt pt' tree.0 tree.1
              (λ k. page_table_leaf cfg i k pt);
    }

-- An entry with the physical page of `pte` whose bits 1 to 3, which are R, W and X, are those of the
-- configuration, and that is valid.
abbrev pub configured : ℕ → ℕ → ℕ
configured cfg pte = pte / 1024 % 2 ^ 52 * 1024 + 1 + cfg / 2 % 8 * 2

pmp_entry_lem : (cfg pte : ℕ) → pmp_entry cfg pte ≡ configured cfg pte
unfolding pmp_entry
pmp_entry_lem cfg pte =
    let page : pa2pte (pte2pa pte) ≡ pte / 1024 % 2 ^ 52 * 1024 = omega arith in
    let bits : (if has_bit pte_r cfg then 2 else 0)
          + (if has_bit pte_w cfg then 4 else 0)
          + (if has_bit pte_x cfg then 8 else 0)
        ≡ cfg / 2 % 8 * 2 =
      ground arith in
    omega arith

-- With the range below the largest address, pmp_set_permissions() returns. The entry of each mapped
-- page of the range keeps its physical page, is valid, is readable, writable and executable as bits
-- 1, 2 and 3 of the configuration say, and has no other bit, so that the user bit is lost. Every
-- other entry, the tree, the registers and the process are as they were, and `pmp_config` is set.
pub pmp_set_permissions_lem :
    (final cfg base vpn : ℕ) (s : State)
    → base / 4096 + (final - base + 4095) / 4096 ≤ 2 ^ 26
    → (t : State) × (pmp_set_permissions final cfg base s ≡ ret t)
      × (t.vmm.vmm_pagetable.leaf vpn ≡ (
          if leb (base / 4096) vpn
            && ltb vpn (base / 4096 + (final - base + 4095) / 4096)
            && is_mapped s.vmm.vmm_pagetable vpn
          then configured cfg (s.vmm.vmm_pagetable.leaf vpn)
          else s.vmm.vmm_pagetable.leaf vpn))
      × (t.vmm.vmm_pagetable.mid ≡ s.vmm.vmm_pagetable.mid)
      × (t.vmm.vmm_pagetable.low ≡ s.vmm.vmm_pagetable.low)
      × (t.vmm.regs ≡ s.vmm.regs)
      × (t.proc ≡ s.proc)
      × (t.pmp_config ≡ true)
unfolding pmp_set_permissions
pmp_set_permissions_lem final cfg base vpn s h =
    let old = s.vmm.vmm_pagetable.leaf vpn in
    let in_range =
      leb (base / 4096) vpn
      && ltb vpn (base / 4096 + pages base final)
      && is_mapped s.vmm.vmm_pagetable vpn in
    let p = pmp_set_pages_lem (pages base final) cfg base s.vmm.vmm_pagetable h in
    (
      record s { vmm = record s.vmm { vmm_pagetable = p.table }; pmp_config = true },
      rw p.returns,
      p.leaves vpn ∙ ap (λ e. if in_range then e else old) (pmp_entry_lem cfg old),
      p.same_mid,
      p.same_low,
      refl,
      refl,
      refl,
    )
