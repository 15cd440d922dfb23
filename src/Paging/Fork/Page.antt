-- ===== src/Paging/Fork/Page.antt =====
-- Project-2, kernel/cow.c: what the loop of uvmcopy_cow() makes of one page.
use cse_536_advanced_operati.Base.{
  ℕ, ◌+◌, ◌-◌, ◌*◌, ◌/◌, ◌<◌, ◌≤◌, ◌≡◌, ◌≢◌, refl, sym, ap, ◌∙◌, subst, Bool, true, false, ◌&&◌,
  Option, length, ltb, leb, ◌==◌, if◌then◌else◌, Outcome, ret, has_bit, set_bit, clear_bit, arith,
  ℕ_discrete,
}
use cse_536_advanced_operati.Vm.Memory.{page_size}
use cse_536_advanced_operati.Vm.Table.{put_leaf, pte_v, pte_w, pa2pte, pte2pa, pte_flags, max_va}
use cse_536_advanced_operati.Vm.Table.Entries.{entry, IsPresent, Grows, Takes, put_leaf-entry}
use cse_536_advanced_operati.Vm.Table.Range.{mapped_entry, mappages-MappedRange, mappages_present}
use cse_536_advanced_operati.Vm.User.Unmap.{IsMapped, uvmunmap_kept}
use cse_536_advanced_operati.Cow.Groups.{Groups, add_shmem}
use cse_536_advanced_operati.Paging.Fork.Private.{remapped-entry}
use cse_536_advanced_operati.Paging.Fork.{Sharing, mapped_or_panic, share_page}

-- The entry that both processes have for a shared page: the write bit is cleared.
abbrev pub shared_entry : ℕ → ℕ
shared_entry pte = pa2pte (pte2pa pte) + set_bit pte_v (clear_bit pte_w (pte_flags pte))

-- The tables after the pages from `first` to `first + n` are shared.
pub record IsShared (s : Sharing) (first n : ℕ) (t : Sharing) : Type 0 where
  pub parent :
      (v : ℕ)
      → entry t.old v
        ≡ (if leb first v && ltb v (first + n) then shared_entry (entry s.old v) else entry s.old v)
  pub child :
      (v : ℕ)
      → entry t.new v
        ≡ (if leb first v && ltb v (first + n) then shared_entry (entry s.old v) else entry s.new v)
  pub grows : Grows s.old t.old
  pub takes : Takes (2 * n) s.memory t.memory

-- A page of the parent that can be shared with the child.
pub record IsShareable (s : Sharing) (v : ℕ) : Type 0 where
  pub present : IsPresent s.old v
  pub valid : has_bit pte_v (entry s.old v) ≡ true
  pub is_leaf : pte_flags (entry s.old v) ≢ 1
  pub vacant : has_bit pte_v (entry s.new v) ≡ false

-- A change at one page, as a change to a range of one.
one_page :
    (v p x y : ℕ) (f : ℕ → ℕ)
    → v ≡ p
    → (if x == p then f v else y) ≡ (if leb v x && ltb x (v + 1) then f x else y)
one_page v p x y f h = elim (ℕ_discrete x v) [
  | yes e ↦ let at : f x ≡ f v = ap f e in ground arith
  | no n ↦ ground arith
]

one_entry :
    (v p n x y pte : ℕ)
    → v ≡ p
    → n ≡ 0
    → (if leb p x && leb x (p + n)
        then mapped_entry (pte2pa pte) (clear_bit pte_w (pte_flags pte)) (x - p)
        else y)
      ≡ (if x == v then shared_entry pte else y)
one_entry v p n x y pte h z = elim (ℕ_discrete x v) [
  | yes e ↦
      let at : mapped_entry (pte2pa pte) (clear_bit pte_w (pte_flags pte)) (x - p)
          ≡ shared_entry pte =
        ap (λ a. pa2pte a + set_bit pte_v (clear_bit pte_w (pte_flags pte))) (omega arith) in
      ground arith
  | no m ↦ ground arith
]

pub IsShareable-IsMapped :
    (s : Sharing) (v : ℕ)
    → v * page_size < max_va
    → IsShareable s v
    → IsMapped s.old (v * page_size) (entry s.old v)
IsShareable-IsMapped s v b h =
    let place : v ≡ v * page_size / 4096 = omega arith in
    record {
      inside = b;
      present = subst (IsPresent s.old) place h.present;
      is = ap (entry s.old) (sym place);
      valid = h.valid;
      is_leaf = h.is_leaf;
    }

-- One page: the child's entry, the parent's, and the group.
pub share_page-IsShared :
    (kept : Groups → ℕ → Outcome Bool) (group : Option ℕ) (v : ℕ) (s : Sharing) (groups : Groups)
    → v * page_size + page_size ≤ max_va
    → IsShareable s v
    → 2 ≤ length s.memory.freelist
    → add_shmem group (pte2pa (entry s.old v)) s.groups ≡ ret groups
    → (t : Sharing) × (share_page kept group (v * page_size) (entry s.old v) s ≡ ret t)
      × IsShared s v 1 t
      × (t.groups ≡ groups)
unfolding share_page mapped_or_panic
share_page-IsShared kept group v s groups b h room added =
    let i = v * page_size in
    let pte = entry s.old v in
    let flags = clear_bit pte_w (pte_flags pte) in
    let place : v ≡ i / 4096 = omega arith in
    let mapped = IsShareable-IsMapped s v (omega arith) h in
    let (w, returns, range) =
      mappages-MappedRange s.new i page_size (pte2pa pte) flags s.memory (omega arith) b
        (λ k l u. subst (λ x. has_bit pte_v (entry s.new x) ≡ false) (omega arith) h.vacant)
        (omega arith) in
    let cleared = put_leaf s.old (i / 4096) 0 in
    let empty : has_bit pte_v (entry cleared (i / 4096)) ≡ false =
      rw (put_leaf-entry s.old (i / 4096) 0 (i / 4096) mapped.present) (ground arith) in
    let again =
      mappages_present cleared i (pte2pa pte) flags w.2 mapped.inside (omega arith) mapped.present
        empty in
    let t : Sharing = record {
      old = put_leaf cleared (i / 4096) (shared_entry pte);
      new = w.1;
      memory = w.2;
      groups = groups;
    } in
    (
      t,
      rw
          (
            returns,
            range.done,
            added,
            uvmunmap_kept (kept groups) s.old i pte w.2 (omega arith) mapped,
            again,
          )
          refl,
      record {
        parent = λ x.
            remapped-entry s.old (i / 4096) (shared_entry pte) x mapped.present
            ∙ one_page v (i / 4096) x (entry s.old x) (λ y. shared_entry (entry s.old y)) place;
        child = λ x.
            range.entries x
            ∙ one_entry v (i / 4096) ((i + page_size - 1) / 4096 - i / 4096) x (entry s.new x) pte
                place (omega arith)
            ∙ one_page v v x (entry s.new x) (λ y. shared_entry (entry s.old y)) refl;
        grows = λ x p. p;
        takes = record {
          bounded = omega (arith, range.takes.bounded);
          bottom = range.takes.bottom;
        };
      },
      refl,
    )
