-- ===== src/Paging/Fork/Share.antt =====
-- Project-2, kernel/cow.c: what uvmcopy_cow() makes of the two page tables.
use cse_536_advanced_operati.Base.{
  ℕ, zero, suc, ◌+◌, ◌*◌, ◌/◌, ◌<◌, ◌≤◌, ◌≡◌, refl, sym, ap, ◌∙◌, inl, inr, Bool, ◌&&◌, some,
  length, ltb, leb, ◌==◌, if◌then◌else◌, Outcome, ret, arith, Bool-cases, ℕ_discrete, if_true,
  if_false,
}
use cse_536_advanced_operati.Vm.Memory.{page_size}
use cse_536_advanced_operati.Vm.Table.{pte2pa, pte_flags, max_va}
use cse_536_advanced_operati.Vm.Table.Entries.{entry}
use cse_536_advanced_operati.Vm.User.Unmap.{walk-IsMapped}
use cse_536_advanced_operati.Cow.Groups.{nproc, Groups, find_group}
use cse_536_advanced_operati.Cow.Groups.{incr_cow_group_count}
use cse_536_advanced_operati.Cow.Groups.Kept.{add_shmem_kept, count_found, incr_kept}
use cse_536_advanced_operati.Paging.State.{Proc, kept_by_group}
use cse_536_advanced_operati.Paging.Fork.{Sharing, share_pages, share_memory, uvmcopy_cow}
use cse_536_advanced_operati.Paging.Fork.Page.{
  shared_entry, IsShared, IsShareable, IsShareable-IsMapped, share_page-IsShared,
}

-- The pages behind a shared one can still be shared.
IsShareable-kept :
    (s t : Sharing) (v k : ℕ) → v < k → IsShared s v 1 t → IsShareable s k → IsShareable t k
IsShareable-kept s t v k l h f =
    let old : entry t.old k ≡ entry s.old k = h.parent k ∙ ground arith in
    let new : entry t.new k ≡ entry s.new k = h.child k ∙ ground arith in
    record {
      present = h.grows k f.present;
      valid = rw old f.valid;
      is_leaf = λ e. f.is_leaf (sym (ap pte_flags old) ∙ e);
      vacant = rw new f.vacant;
    }

more_pages :
    (v n x old old' y y' : ℕ) (f : ℕ → ℕ)
    → old' ≡ (if leb v x && ltb x (v + 1) then f old else old)
    → y' ≡ (if leb v x && ltb x (v + 1) then f old else y)
    → (if leb (v + 1) x && ltb x (v + 1 + n) then f old' else y')
      ≡ (if leb v x && ltb x (v + suc n) then f old else y)
more_pages v n x old old' y y' f h g = elim (ℕ_discrete x v) [
  | yes e ↦ ground arith
  | no m ↦
      let same : old' ≡ old = h ∙ ground arith in
      let image : f old' ≡ f old = ap f same in ground arith
]

-- One page and the pages behind it.
IsShared-more :
    (s t u : Sharing) (v n : ℕ) → IsShared s v 1 t → IsShared t (v + 1) n u → IsShared s v (suc n) u
IsShared-more s t u v n h r = record {
  parent = λ x.
      r.parent x
      ∙ more_pages v n x (entry s.old x) (entry t.old x) (entry s.old x) (entry t.old x)
          shared_entry (h.parent x) (h.parent x);
  child = λ x.
      r.child x
      ∙ more_pages v n x (entry s.old x) (entry t.old x) (entry s.new x) (entry t.new x)
          shared_entry (h.parent x) (h.child x);
  grows = λ x p. r.grows x (h.grows x p);
  takes = record {
    bounded = omega (arith, h.takes.bounded, r.takes.bounded);
    bottom = r.takes.bottom ∙ h.takes.bottom;
  };
}

share_pages-IsShared :
    (kept : Groups → ℕ → Outcome Bool) (id i n v : ℕ) (s : Sharing)
    → (v + n) * page_size ≤ max_va
    → ((k : ℕ) → v ≤ k → k < v + n → IsShareable s k)
    → 2 * n ≤ length s.memory.freelist
    → find_group nproc 0 id s.groups ≡ some i
    → (t : Sharing) × (share_pages kept (some id) n (v * page_size) s ≡ ret t)
      × IsShared s v n t
      × (find_group nproc 0 id t.groups ≡ some i)
unfolding share_pages
share_pages-IsShared kept id i zero v s b f room found = (
  s,
  refl,
  record {
    parent = λ x. ground arith;
    child = λ x. ground arith;
    grows = λ x p. p;
    takes = record { bounded = omega arith; bottom = refl };
  },
  found,
)
share_pages-IsShared kept id i (suc n) v s b f room found =
    let here = f v (omega arith) (omega arith) in
    let (groups, added, found_on) = add_shmem_kept id (pte2pa (entry s.old v)) i s.groups found in
    let (t, shared, first, same) =
      share_page-IsShared kept (some id) v s groups (omega arith) here (omega arith) added in
    let (u, rest, others, found_last) =
      share_pages-IsShared kept id i n (v + 1) t (omega arith)
        (λ k l m. IsShareable-kept s t v k (omega arith) first (f k (omega arith) (omega arith)))
        (omega (arith, first.takes.bounded)) (ap (find_group nproc 0 id) same ∙ found_on) in
    let walked =
      walk-IsMapped s.old (v * page_size) (entry s.old v)
        (IsShareable-IsMapped s v (omega arith) here) in
    let on : v * page_size + page_size ≡ (v + 1) * page_size = omega arith in
    (
      u,
      rw (walked, here.valid, shared) (ap (λ a. share_pages kept (some id) n a t) on ∙ rest),
      IsShared-more s t u v n first others,
      found_last,
    )

-- The groups do not matter to the tables.
IsShared-groups :
    (s t : Sharing) (g g' : Groups) (v n : ℕ)
    → IsShared (record s { groups = g }) v n t
    → IsShared s v n (record t { groups = g' })
IsShared-groups s t g g' v n h = record {
  parent = h.parent;
  child = h.child;
  grows = h.grows;
  takes = record { bounded = h.takes.bounded; bottom = h.takes.bottom };
}

IsShareable-groups :
    (s : Sharing) (g : Groups) (v : ℕ) → IsShareable s v → IsShareable (record s { groups = g }) v
IsShareable-groups s g v h = record {
  present = h.present;
  valid = h.valid;
  is_leaf = h.is_leaf;
  vacant = h.vacant;
}

-- The first count of a group that has none yet.
counted_kept :
    (id i : ℕ) (gs : Groups)
    → find_group nproc 0 id gs ≡ some i
    → (new : Groups) × ((if (gs i).count == 0 then incr_cow_group_count (some id) gs else ret gs)
        ≡ ret new)
      × (find_group nproc 0 id new ≡ some i)
counted_kept id i gs found = elim (Bool-cases ((gs i).count == 0)) [
  | inl y ↦
      let (new, counted, found_on) = incr_kept id i gs found in
      (new, if_true _ _ y ∙ counted, found_on)
  | inr n ↦ (gs, if_false _ _ n, found)
]

-- Where every page of the parent below `sz` is mapped and none of the child is, the group is in the
-- table and two free pages are there for each page, uvmcopy_cow() returns, parent and child have the
-- same entry for each of the pages, without the write bit, and no other entry changes.
pub uvmcopy_cow-IsShared :
    (p : Proc) (id i sz : ℕ) (s : Sharing)
    → p.cow_group ≡ some id
    → find_group nproc 0 id s.groups ≡ some i
    → (sz + 4095) / page_size * page_size ≤ max_va
    → ((v : ℕ) → v < (sz + 4095) / page_size → IsShareable s v)
    → 2 * ((sz + 4095) / page_size) ≤ length s.memory.freelist
    → (t : Sharing) × (uvmcopy_cow p s sz ≡ ret t) × IsShared s 0 ((sz + 4095) / page_size) t
unfolding uvmcopy_cow share_memory
uvmcopy_cow-IsShared p id i sz s g found b f room =
    let n = (sz + 4095) / page_size in
    let (gs, counted, found_on) = counted_kept id i s.groups found in
    let (t, shared, tables, found_last) =
      share_pages-IsShared (kept_by_group p) id i n 0 (record s { groups = gs }) (omega arith)
        (λ k l u. IsShareable-groups s gs k (f k (omega arith))) room found_on in
    let (last, counted_last, found_end) = incr_kept id i t.groups found_last in
    (
      record t { groups = last },
      ap (λ o. share_memory (kept_by_group p) o s sz) g
          ∙ rw (share_memory, count_found id i s.groups found, counted, shared, counted_last) refl,
      IsShared-groups s t gs last 0 n tables,
    )
