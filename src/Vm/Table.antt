-- ===== src/Vm/Table.antt =====
-- Sv39 page tables: kernel/vm.c and the macros of kernel/riscv.h of Project-4 (walk, walkaddr,
-- mappages and copyin are the same in Project-2). A page table is the pages of its tree that are
-- present, by the part of the address that selects them, and its leaf entries, by virtual page.
-- The physical addresses of the tree's own pages are left out.
pub mod Entries
pub mod Range
use cse_536_advanced_operati.Base.{
  ℕ, zero, suc, ◌+◌, ◌-◌, ◌*◌, ◌/◌, ◌%◌, ◌^◌, Bool, true, false, not, ◌&&◌, Option, none, some,
  List, [], ◌∷◌, ◌++◌, ltb, leb, ◌==◌, if◌then◌else◌, Outcome, ret, panic, ◌>>=◌, u64, has_bit,
  set_bit,
}
use cse_536_advanced_operati.Vm.Memory.{Memory, page_size, kalloc, memset}

abbrev pub max_va : ℕ
max_va = 2 ^ 38

-- The positions of PTE_V, PTE_R, PTE_W, PTE_X and PTE_U.
abbrev pub pte_v : ℕ
pte_v = 0

abbrev pub pte_r : ℕ
pte_r = 1

abbrev pub pte_w : ℕ
pte_w = 2

abbrev pub pte_x : ℕ
pte_x = 3

abbrev pub pte_u : ℕ
pte_u = 4

abbrev pub page_round_down : ℕ → ℕ
page_round_down a = a / 4096 * 4096

abbrev pub page_round_up : ℕ → ℕ
page_round_up a = (a + 4095) / 4096 * 4096

abbrev pub pa2pte : ℕ → ℕ
pa2pte pa = pa / 4096 * 1024 % 2 ^ 64

abbrev pub pte2pa : ℕ → ℕ
pte2pa pte = pte / 1024 * 4096 % 2 ^ 64

abbrev pub pte_flags : ℕ → ℕ
pte_flags pte = pte % 1024

pub record PageTable : Type 0 where
  pub mid : ℕ → Bool
  pub low : ℕ → Bool
  pub leaf : ℕ → ℕ

abbrev pub empty_table : PageTable
empty_table = record { mid = λ _. false; low = λ _. false; leaf = λ _. 0 }

abbrev pub put_leaf : PageTable → ℕ → ℕ → PageTable
put_leaf pt vpn pte = record pt { leaf = λ k. if k == vpn then pte else pt.leaf k }

-- walk(pagetable, va, 0), with the entry that its result points to; `none` is a null pointer.
unfoldable pub walk : PageTable → ℕ → Outcome (Option ℕ)
walk pt va =
    if leb max_va va
    then panic
    else ret (
        if pt.mid (va / 2 ^ 30) && pt.low (va / 2 ^ 21) then some (pt.leaf (va / 2 ^ 12)) else none)

-- A fresh page of the tree is zeroed, so nothing below it is present.
add_mid : PageTable → ℕ → PageTable
add_mid pt i = record pt {
  mid = λ k. if k == i then true else pt.mid k;
  low = λ k. if k / 512 == i then false else pt.low k;
}

add_low : PageTable → ℕ → PageTable
add_low pt i = record pt {
  low = λ k. if k == i then true else pt.low k;
  leaf = λ k. if k / 512 == i then 0 else pt.leaf k;
}

-- One page for the tree: the memory after it, if there was one.
tree_page : Memory → Option Memory
unfolding kalloc memset
tree_page m =
    let (page, m') = kalloc m in
    elim page [ none ↦ none | some pa ↦ some (record m' { byte = memset m'.byte pa 0 page_size }) ]

-- walk(pagetable, va, 1): whether it returned an entry, and what it allocated on the way.
walk_low : PageTable → ℕ → Memory → Bool × PageTable × Memory
unfolding add_low tree_page
walk_low pt va m = if pt.low (va / 2 ^ 21) then (true, pt, m) else elim (tree_page m) [
  | none ↦ (false, pt, m)
  | some m' ↦ (true, add_low pt (va / 2 ^ 21), m')
]

unfoldable pub walk_alloc : PageTable → ℕ → Memory → Outcome (Bool × PageTable × Memory)
unfolding walk_low add_mid tree_page
walk_alloc pt va m =
    if leb max_va va
    then panic
    else if pt.mid (va / 2 ^ 30)
    then ret (walk_low pt va m)
    else elim (tree_page m) [
      | none ↦ ret (false, pt, m)
      | some m' ↦ ret (walk_low (add_mid pt (va / 2 ^ 30)) va m')
    ]

-- The physical address of a user page, or 0.
unfoldable pub walkaddr : PageTable → ℕ → Outcome ℕ
unfolding walk
walkaddr pt va =
    if leb max_va va
    then ret 0
    else walk pt va >>= λ entry. elim entry [
      | none ↦ ret 0
      | some pte ↦
          if not (has_bit pte_v pte)
          then ret 0
          else if not (has_bit pte_u pte)
          then ret 0
          else ret (pte2pa pte)
    ]

-- One round of the loop of mappages(), with `perm` below 1024 as every caller has it: the entry's
-- low ten bits are then `perm` with the valid bit.
unfoldable pub map_page : PageTable → ℕ → ℕ → ℕ → Memory → Outcome (Bool × PageTable × Memory)
unfolding walk_alloc
map_page pt a pa perm m = walk_alloc pt a m >>= λ w.
    if not w.0
    then ret w
    else if has_bit pte_v (w.1.leaf (a / 4096))
    then panic
    else ret (true, put_leaf w.1 (a / 4096) (pa2pte pa + set_bit pte_v perm), w.2)

-- The loop of mappages(). The address grows by a page in each round, and walk() panics at
-- `max_va`, so 2 ^ 26 + 1 rounds are never used up: to run out of rounds is that panic.
map_from : ℕ → ℕ → PageTable → ℕ → ℕ → ℕ → Memory → Outcome (Bool × PageTable × Memory)
unfolding map_page
map_from zero last pt a pa perm m = panic
map_from (suc rounds) last pt a pa perm m = map_page pt a pa perm m >>= λ w.
    let rest = map_from rounds last w.1 (a + page_size) (pa + page_size) perm w.2 in
    if not w.0 then ret w else if a == last then ret w else rest

-- `false` is the result -1.
unfoldable pub mappages : PageTable → ℕ → ℕ → ℕ → ℕ → Memory → Outcome (Bool × PageTable × Memory)
unfolding map_from
mappages pt va size pa perm m =
    if size == 0
    then panic
    else map_from (2 ^ 26 + 1) (page_round_down (u64 (va + size - 1))) pt (page_round_down va) pa
        perm m

-- `n` bytes from physical address `pa` on.
unfoldable pub read_bytes : (ℕ → ℕ) → ℕ → ℕ → List ℕ
read_bytes byte pa zero = []
read_bytes byte pa (suc n) = byte pa ∷ read_bytes byte (pa + 1) n

-- The loop of copyin(). Each round copies at least one byte, so `len` rounds are enough.
copyin_from : ℕ → PageTable → Memory → ℕ → ℕ → Outcome (Option (List ℕ))
unfolding walkaddr read_bytes
copyin_from zero pt m srcva len = ret (some [])
copyin_from (suc rounds) pt m srcva len =
    let va0 = page_round_down srcva in
    let room = page_size - (srcva - va0) in
    let n = if ltb room len then room else len in
    if len == 0
    then ret (some [])
    else walkaddr pt va0 >>= λ pa0.
        let rest = copyin_from rounds pt m (va0 + page_size) (len - n) in
        if pa0 == 0
        then ret none
        else rest >>= λ more. elim more [
          | none ↦ ret none
          | some bytes ↦ ret (some (read_bytes m.byte (pa0 + (srcva - va0)) n ++ bytes))
        ]

-- The bytes copied, or `none` for the result -1.
unfoldable pub copyin : PageTable → Memory → ℕ → ℕ → Outcome (Option (List ℕ))
unfolding copyin_from
copyin pt m srcva len = copyin_from len pt m srcva len
