-- ===== src/Vm/Table/Entries.antt =====
-- kernel/vm.c: a page table seen as a function from virtual pages to entries, and what walk() and
-- mappages() do to it.
use cse_536_advanced_operati.Base.{
  ℕ, ◌+◌, ◌/◌, ◌^◌, ◌<◌, ◌≤◌, ◌≡◌, refl, sym, ap, ◌∙◌, subst, ◌⊎◌, inl, inr, Bool, true, false,
  ◌&&◌, none, some, List, [], ◌∷◌, length, leb, ◌==◌, if◌then◌else◌, ret, has_bit, set_bit, arith,
  Bool-cases, ℕ_discrete,
}
use cse_536_advanced_operati.Vm.Memory.{Memory, kalloc, take_page}
use cse_536_advanced_operati.Vm.Table.{
  PageTable, put_leaf, walk_alloc, walk_low, add_mid, add_low, tree_page, map_page, pte_v, pa2pte,
  max_va,
}

-- The entry of a virtual page; 0 where the tree does not reach it.
abbrev pub entry : PageTable → ℕ → ℕ
entry pt v = if pt.mid (v / 2 ^ 18) && pt.low (v / 2 ^ 9) then pt.leaf v else 0

abbrev pub IsPresent : PageTable → ℕ → Type 0
IsPresent pt v = (pt.mid (v / 2 ^ 18) && pt.low (v / 2 ^ 9)) ≡ true

-- Two tables with the same entries.
abbrev pub SameEntries : PageTable → PageTable → Type 0
SameEntries pt new = (v : ℕ) → entry new v ≡ entry pt v

-- Every page that the tree reached is still reached.
abbrev pub Grows : PageTable → PageTable → Type 0
Grows pt new = (v : ℕ) → IsPresent pt v → IsPresent new v

-- At most `n` free pages were taken, and the rest of the allocator is as it was.
pub record Takes (n : ℕ) (m new : Memory) : Type 0 where
  pub bounded : length m.freelist ≤ length new.freelist + n
  pub bottom : new.end_addr ≡ m.end_addr

-- What a page for the tree takes from the allocator.
abbrev TreePage : Memory → Type 0
TreePage m =
    ((tree_page m ≡ none) × (length m.freelist ≡ 0))
    ⊎ ((new : Memory) × (tree_page m ≡ some new) × Takes 1 m new)

TreePage-list :
    (byte : ℕ → ℕ) (l : List ℕ) (bottom : ℕ)
    → TreePage (record { byte = byte; freelist = l; end_addr = bottom })
unfolding tree_page kalloc take_page
TreePage-list byte [] bottom = inl (refl, refl)
TreePage-list byte (r ∷ rest) bottom =
    inr (_, refl, record { bounded = omega arith; bottom = refl })

TreePage-cases : (m : Memory) → TreePage m
TreePage-cases m = TreePage-list m.byte m.freelist m.end_addr

add_mid-entry : (pt : PageTable) (i v : ℕ) → pt.mid i ≡ false → entry (add_mid pt i) v ≡ entry pt v
unfolding add_mid
add_mid-entry pt i v h = elim (ℕ_discrete (v / 2 ^ 18) i) [
  | yes e ↦ let gone : pt.mid (v / 2 ^ 18) ≡ false = ap pt.mid e ∙ h in ground arith
  | no n ↦ ground arith
]

add_low-entry : (pt : PageTable) (i v : ℕ) → pt.low i ≡ false → entry (add_low pt i) v ≡ entry pt v
unfolding add_low
add_low-entry pt i v h = elim (ℕ_discrete (v / 2 ^ 9) i) [
  | yes e ↦ let gone : pt.low (v / 2 ^ 9) ≡ false = ap pt.low e ∙ h in ground arith
  | no n ↦ ground arith
]

add_mid-Grows : (pt : PageTable) (i : ℕ) → pt.mid i ≡ false → Grows pt (add_mid pt i)
unfolding add_mid
add_mid-Grows pt i h v p = elim (ℕ_discrete (v / 2 ^ 18) i) [
  | yes e ↦ let gone : pt.mid (v / 2 ^ 18) ≡ false = ap pt.mid e ∙ h in ground arith
  | no n ↦ ground arith
]

add_low-Grows : (pt : PageTable) (i : ℕ) → Grows pt (add_low pt i)
unfolding add_low
add_low-Grows pt i v p = ground arith

-- What a walk that takes at most `n` pages does: its result, the table and the memory after it.
pub record Walked (n : ℕ) (pt : PageTable) (va : ℕ) (m : Memory) (w : Bool × PageTable × Memory)
    : Type 0 where
  pub same : SameEntries pt w.1
  pub grows : Grows pt w.1
  pub takes : Takes n m w.2
  pub found : w.0 ≡ true → IsPresent w.1 (va / 4096)
  pub failed : w.0 ≡ false → length m.freelist < n

pub mid_place : (va : ℕ) → va / 4096 / 2 ^ 18 ≡ va / 2 ^ 30
mid_place va = omega arith

pub low_place : (va : ℕ) → va / 4096 / 2 ^ 9 ≡ va / 2 ^ 21
low_place va = omega arith

add_low-IsPresent :
    (pt : PageTable) (va : ℕ)
    → pt.mid (va / 2 ^ 30) ≡ true
    → IsPresent (add_low pt (va / 2 ^ 21)) (va / 4096)
unfolding add_low
add_low-IsPresent pt va h = rw (mid_place va, low_place va, h) (ground arith)

Takes-refl : (n : ℕ) (m : Memory) → Takes n m m
Takes-refl n m = record { bounded = omega arith; bottom = refl }

walk_low-Walked :
    (pt : PageTable) (va : ℕ) (m : Memory)
    → pt.mid (va / 2 ^ 30) ≡ true
    → Walked 1 pt va m (walk_low pt va m)
unfolding walk_low
walk_low-Walked pt va m h = elim (Bool-cases (pt.low (va / 2 ^ 21))) [
  | inl y ↦ rw y (record {
    same = λ v. refl;
    grows = λ v p. p;
    takes = Takes-refl 1 m;
    found = λ _. rw (mid_place va, low_place va, h, y) refl;
    failed = λ e. absurd (cc (e));
  })
  | inr n ↦ elim (TreePage-cases m) [
    | inl (e, free) ↦
        rw (n, e)
          (record {
            same = λ v. refl;
            grows = λ v p. p;
            takes = Takes-refl 1 m;
            found = λ e. absurd (cc (e));
            failed = λ _. omega (arith, free);
          })
    | inr (new, e, takes) ↦
        rw (n, e)
          (record {
            same = λ v. add_low-entry pt (va / 2 ^ 21) v n;
            grows = add_low-Grows pt (va / 2 ^ 21);
            takes = takes;
            found = λ _. add_low-IsPresent pt va h;
            failed = λ e. absurd (cc (e));
          })
  ]
]

add_mid-mid : (pt : PageTable) (i : ℕ) → (add_mid pt i).mid i ≡ true
unfolding add_mid
add_mid-mid pt i = ground arith

Walked-more :
    (pt : PageTable) (va : ℕ) (m : Memory) (w : Bool × PageTable × Memory)
    → Walked 1 pt va m w
    → Walked 2 pt va m w
Walked-more pt va m w h = record {
  same = h.same;
  grows = h.grows;
  takes = record { bounded = omega (arith, h.takes.bounded); bottom = h.takes.bottom };
  found = h.found;
  failed = λ e. omega (arith, h.failed e);
}

-- A walk below a page that was just added to the tree.
Walked-after :
    (pt : PageTable) (i va : ℕ) (m new : Memory) (w : Bool × PageTable × Memory)
    → pt.mid i ≡ false
    → Takes 1 m new
    → Walked 1 (add_mid pt i) va new w
    → Walked 2 pt va m w
Walked-after pt i va m new w n t h = record {
  same = λ v. h.same v ∙ add_mid-entry pt i v n;
  grows = λ v p. h.grows v (add_mid-Grows pt i n v p);
  takes = record {
    bounded = omega (arith, h.takes.bounded, t.bounded);
    bottom = h.takes.bottom ∙ t.bottom;
  };
  found = h.found;
  failed = λ e. omega (arith, h.failed e, t.bounded);
}

-- walk(pagetable, va, 1) below the largest address: it returns, it changes no entry, and it fails
-- only where less than two pages are free.
pub walk_alloc-Walked :
    (pt : PageTable) (va : ℕ) (m : Memory)
    → va < max_va
    → (w : Bool × PageTable × Memory) × (walk_alloc pt va m ≡ ret w) × Walked 2 pt va m w
unfolding walk_alloc
walk_alloc-Walked pt va m b =
    let inside : leb max_va va ≡ false = ground arith in
    elim (Bool-cases (pt.mid (va / 2 ^ 30))) [
      | inl y ↦
          let low = walk_low-Walked pt va m y in
          (walk_low pt va m, rw (inside, y) refl, Walked-more pt va m _ low)
      | inr n ↦ elim (TreePage-cases m) [
        | inl (e, free) ↦ (
          (false, pt, m),
          rw (inside, n, e) refl,
          record {
            same = λ v. refl;
            grows = λ v p. p;
            takes = Takes-refl 2 m;
            found = λ e. absurd (cc (e));
            failed = λ _. omega (arith, free);
          },
        )
        | inr (new, e, takes) ↦
            let low =
              walk_low-Walked (add_mid pt (va / 2 ^ 30)) va new (add_mid-mid pt (va / 2 ^ 30)) in
            (
              walk_low (add_mid pt (va / 2 ^ 30)) va new,
              rw (inside, n, e) refl,
              Walked-after pt (va / 2 ^ 30) va m new _ n takes low,
            )
      ]
    ]

-- One page of mappages() at a page that has no valid entry, with two pages free for the tree: the
-- entry is written, and no other entry changes.
pub record Mapped (pt : PageTable) (v pte : ℕ) (m : Memory) (w : Bool × PageTable × Memory)
    : Type 0 where
  pub done : w.0 ≡ true
  pub present : IsPresent w.1 v
  pub entries : (k : ℕ) → entry w.1 k ≡ (if k == v then pte else entry pt k)
  pub grows : Grows pt w.1
  pub takes : Takes 2 m w.2

pub put_leaf-entry :
    (pt : PageTable) (v pte k : ℕ)
    → IsPresent pt v
    → entry (put_leaf pt v pte) k ≡ (if k == v then pte else entry pt k)
put_leaf-entry pt v pte k p = elim (ℕ_discrete k v) [
  | yes e ↦ let at : IsPresent pt k = subst (IsPresent pt) (sym e) p in ground arith
  | no n ↦ ground arith
]

pub entry_present : (pt : PageTable) (v : ℕ) → IsPresent pt v → entry pt v ≡ pt.leaf v
entry_present pt v p = rw p refl

pub map_page-Mapped :
    (pt : PageTable) (a pa perm : ℕ) (m : Memory)
    → a < max_va
    → has_bit pte_v (entry pt (a / 4096)) ≡ false
    → 2 ≤ length m.freelist
    → (w : Bool × PageTable × Memory) × (map_page pt a pa perm m ≡ ret w)
      × Mapped pt (a / 4096) (pa2pte pa + set_bit pte_v perm) m w
unfolding map_page
map_page-Mapped pt a pa perm m b free room =
    let (w, walked, facts) = walk_alloc-Walked pt a m b in
    elim (Bool-cases w.0) [
      | inr n ↦ absurd (omega (arith, facts.failed n))
      | inl y ↦
          let there = facts.found y in
          let leaf : w.1.leaf (a / 4096) ≡ entry pt (a / 4096) =
            sym (entry_present w.1 (a / 4096) there) ∙ facts.same (a / 4096) in
          let invalid : has_bit pte_v (w.1.leaf (a / 4096)) ≡ false = rw leaf free in
          (
            (true, put_leaf w.1 (a / 4096) (pa2pte pa + set_bit pte_v perm), w.2),
            rw (walked, y, invalid) refl,
            record {
              done = refl;
              present = there;
              entries = λ k.
                  put_leaf-entry w.1 (a / 4096) _ k there
                  ∙ ap (λ x. if k == a / 4096 then pa2pte pa + set_bit pte_v perm else x)
                      (facts.same k);
              grows = facts.grows;
              takes = facts.takes;
            },
          )
    ]
