-- ===== src/Vm/Table/Range.antt =====
-- kernel/vm.c: mappages() over a range of pages, as a change to the entries.
use cse_536_advanced_operati.Base.{
  ℕ, zero, suc, ◌+◌, ◌-◌, ◌*◌, ◌/◌, ◌%◌, ◌^◌, ◌<◌, ◌≤◌, ◌≡◌, refl, sym, ap, ◌∙◌, subst, Bool, true,
  false, ◌&&◌, length, leb, ◌==◌, if◌then◌else◌, ret, u64, has_bit, set_bit, arith, if_false,
  ℕ_discrete,
}
use cse_536_advanced_operati.Vm.Memory.{Memory, page_size}
use cse_536_advanced_operati.Vm.Table.{
  PageTable, put_leaf, walk_alloc, walk_low, map_page, map_from, mappages, pte_v, pa2pte, max_va,
  page_round_down,
}
use cse_536_advanced_operati.Vm.Table.Entries.{
  mid_place, low_place, entry_present, entry, IsPresent, Grows, Takes, Mapped, map_page-Mapped,
}

-- The entry that mappages() writes for the page `i` pages behind the first one.
abbrev pub mapped_entry : ℕ → ℕ → ℕ → ℕ
mapped_entry pa perm i = pa2pte (pa + i * page_size) + set_bit pte_v perm

-- The entries after the pages from `first` to `first + n` are mapped.
abbrev pub range_entries : PageTable → ℕ → ℕ → ℕ → ℕ → ℕ → ℕ
range_entries pt first n pa perm k =
    if leb first k && leb k (first + n) then mapped_entry pa perm (k - first) else entry pt k

pub record MappedRange (pt : PageTable) (first n pa perm : ℕ) (m : Memory)
    (w : Bool × PageTable × Memory) : Type 0 where
  pub done : w.0 ≡ true
  pub present : (k : ℕ) → first ≤ k → k ≤ first + n → IsPresent w.1 k
  pub entries : (k : ℕ) → entry w.1 k ≡ range_entries pt first n pa perm k
  pub grows : Grows pt w.1
  pub takes : Takes (2 * n + 2) m w.2

-- A function of the place in a range, and a value outside: the first place, and the others.
range_zero :
    (v k x y : ℕ) (f : ℕ → ℕ)
    → y ≡ f 0
    → (if k == v then y else x) ≡ (if leb v k && leb k (v + 0) then f (k - v) else x)
range_zero v k x y f z = elim (ℕ_discrete k v) [
  | yes e ↦ let at : f (k - v) ≡ y = ap f (omega arith) ∙ sym z in ground arith
  | no n ↦ ground arith
]

range_suc :
    (v n k x y : ℕ) (f g : ℕ → ℕ)
    → y ≡ f 0
    → ((i : ℕ) → g i ≡ f (i + 1))
    → (if leb (v + 1) k && leb k (v + 1 + n) then g (k - (v + 1)) else if k == v then y else x)
      ≡ (if leb v k && leb k (v + suc n) then f (k - v) else x)
range_suc v n k x y f g z h = elim (ℕ_discrete k v) [
  | yes e ↦ let at : f (k - v) ≡ y = ap f (omega arith) ∙ sym z in ground arith
  | no d ↦
      let shift : v < k → g (k - (v + 1)) ≡ f (k - v) = λ l. h (k - (v + 1)) ∙ ap f (omega arith) in
      ground arith
]

first_entry : (pa perm : ℕ) → pa2pte pa + set_bit pte_v perm ≡ mapped_entry pa perm 0
first_entry pa perm = ap (λ x. pa2pte x + set_bit pte_v perm) (omega arith)

one-MappedRange :
    (pt : PageTable) (v pa perm : ℕ) (m : Memory) (w : Bool × PageTable × Memory)
    → Mapped pt v (pa2pte pa + set_bit pte_v perm) m w
    → MappedRange pt v 0 pa perm m w
one-MappedRange pt v pa perm m w h = record {
  done = h.done;
  present = λ k l u. subst (IsPresent w.1) (omega arith) h.present;
  entries =
      λ k. h.entries k ∙ range_zero v k (entry pt k) _ (mapped_entry pa perm) (first_entry pa perm);
  grows = h.grows;
  takes = record { bounded = h.takes.bounded; bottom = h.takes.bottom };
}

more-MappedRange :
    (pt : PageTable) (v n pa perm : ℕ) (m : Memory) (w u : Bool × PageTable × Memory)
    → Mapped pt v (pa2pte pa + set_bit pte_v perm) m w
    → MappedRange w.1 (v + 1) n (pa + page_size) perm w.2 u
    → MappedRange pt v (suc n) pa perm m u
more-MappedRange pt v n pa perm m w u h t = record {
  done = t.done;
  present = λ k l b. elim (ℕ_discrete k v) [
    | yes e ↦ t.grows k (subst (IsPresent w.1) (sym e) h.present)
    | no d ↦ t.present k (omega arith) (omega arith)
  ];
  entries = λ k.
      t.entries k
      ∙ ap
          (λ x.
            if leb (v + 1) k && leb k (v + 1 + n)
            then mapped_entry (pa + page_size) perm (k - (v + 1))
            else x)
          (h.entries k)
      ∙ range_suc v n k (entry pt k) _ (mapped_entry pa perm) (mapped_entry (pa + page_size) perm)
          (first_entry pa perm) (λ i. ap (λ x. pa2pte x + set_bit pte_v perm) (omega arith));
  grows = λ k p. t.grows k (h.grows k p);
  takes = record {
    bounded = omega (arith, h.takes.bounded, t.takes.bounded);
    bottom = t.takes.bottom ∙ h.takes.bottom;
  };
}

map_from-MappedRange :
    (rounds n last pa a perm : ℕ) (pt : PageTable) (m : Memory)
    → n < rounds
    → a % page_size ≡ 0
    → a + n * page_size ≡ last
    → last < max_va
    → ((k : ℕ) → a / 4096 ≤ k → k ≤ a / 4096 + n → has_bit pte_v (entry pt k) ≡ false)
    → 2 * n + 2 ≤ length m.freelist
    → (w : Bool × PageTable × Memory) × (map_from rounds last pt a pa perm m ≡ ret w)
      × MappedRange pt (a / 4096) n pa perm m w
unfolding map_from
map_from-MappedRange zero n last pa a perm pt m r al la b free room = absurd (omega arith)
map_from-MappedRange (suc rounds) zero last pa a perm pt m r al la b free room =
    let (w, mapped, one) =
      map_page-Mapped pt a pa perm m (omega arith) (free (a / 4096) (omega arith) (omega arith))
        (omega arith) in
    let stop : (a == last) ≡ true = ground arith in
    (w, rw (mapped, one.done, stop) refl, one-MappedRange pt (a / 4096) pa perm m w one)
map_from-MappedRange (suc rounds) (suc n) last pa a perm pt m r al la b free room =
    let (w, mapped, one) =
      map_page-Mapped pt a pa perm m (omega arith) (free (a / 4096) (omega arith) (omega arith))
        (omega arith) in
    let on : (a == last) ≡ false = ground arith in
    let place : (a + page_size) / 4096 ≡ a / 4096 + 1 = omega arith in
    let still : (k : ℕ)
        → (a + page_size) / 4096 ≤ k
        → k ≤ (a + page_size) / 4096 + n
        → has_bit pte_v (entry w.1 k) ≡ false =
      λ k l u.
        let old = free k (omega arith) (omega arith) in
        let apart : (k == a / 4096) ≡ false = ground arith in rw (one.entries k, apart) old in
    let (u, rest, more) =
      map_from-MappedRange rounds n last (pa + page_size) (a + page_size) perm w.1 w.2 (omega arith)
        (omega arith) (omega arith) b still (omega (arith, one.takes.bounded)) in
    let more_here : MappedRange w.1 (a / 4096 + 1) n (pa + page_size) perm w.2 u =
      subst (λ p. MappedRange w.1 p n (pa + page_size) perm w.2 u) place more in
    (
      u,
      rw (mapped, one.done, on, rest) refl,
      more-MappedRange pt (a / 4096) n pa perm m w u one more_here,
    )

-- mappages() of a range below the largest address, none of whose pages has a valid entry, with two
-- free pages for each of its pages: it returns 0, the entries of the range point to the physical
-- pages in turn with the permissions and the valid bit, and no other entry changes.
pub mappages-MappedRange :
    (pt : PageTable) (va size pa perm : ℕ) (m : Memory)
    → 0 < size
    → va + size ≤ max_va
    → ((k : ℕ) → va / 4096 ≤ k → k ≤ (va + size - 1) / 4096 → has_bit pte_v (entry pt k) ≡ false)
    → 2 * ((va + size - 1) / 4096 - va / 4096) + 2 ≤ length m.freelist
    → (w : Bool × PageTable × Memory) × (mappages pt va size pa perm m ≡ ret w)
      × MappedRange pt (va / 4096) ((va + size - 1) / 4096 - va / 4096) pa perm m w
unfolding mappages
mappages-MappedRange pt va size pa perm m s b free room =
    let some_size : (size == 0) ≡ false = ground arith in
    let (w, returns, range) =
      map_from-MappedRange (2 ^ 26 + 1) ((va + size - 1) / 4096 - va / 4096)
        (page_round_down (u64 (va + size - 1))) pa (page_round_down va) perm pt m (omega arith)
        (omega arith) (omega arith) (omega arith) (λ k l u. free k (omega arith) (omega arith))
        room in
    let place : page_round_down va / 4096 ≡ va / 4096 = omega arith in
    (
      w,
      if_false _ _ some_size ∙ returns,
      subst (λ p. MappedRange pt p ((va + size - 1) / 4096 - va / 4096) pa perm m w) place range,
    )

-- Where the tree reaches the page already, nothing is allocated.
walk_alloc_present :
    (pt : PageTable) (va : ℕ) (m : Memory)
    → va < max_va
    → IsPresent pt (va / 4096)
    → walk_alloc pt va m ≡ ret (true, pt, m)
unfolding walk_alloc walk_low
walk_alloc_present pt va m b p =
    let inside : leb max_va va ≡ false = ground arith in
    let both : (pt.mid (va / 2 ^ 30) && pt.low (va / 2 ^ 21)) ≡ true =
      rw (mid_place va, low_place va) at p in
    let mid : pt.mid (va / 2 ^ 30) ≡ true = ground arith in
    let low : pt.low (va / 2 ^ 21) ≡ true = ground arith in rw (inside, mid, low) refl

map_page_present :
    (pt : PageTable) (a pa perm : ℕ) (m : Memory)
    → a < max_va
    → IsPresent pt (a / 4096)
    → has_bit pte_v (entry pt (a / 4096)) ≡ false
    → map_page pt a pa perm m
      ≡ ret (true, put_leaf pt (a / 4096) (pa2pte pa + set_bit pte_v perm), m)
unfolding map_page
map_page_present pt a pa perm m b p free =
    let invalid : has_bit pte_v (pt.leaf (a / 4096)) ≡ false =
      rw (entry_present pt (a / 4096) p) at free in
    rw (walk_alloc_present pt a m b p, invalid) refl

map_from_one :
    (rounds last a pa perm : ℕ) (pt new : PageTable) (m m' : Memory)
    → 0 < rounds
    → a ≡ last
    → map_page pt a pa perm m ≡ ret (true, new, m')
    → map_from rounds last pt a pa perm m ≡ ret (true, new, m')
unfolding map_from
map_from_one zero last a pa perm pt new m m' b e h = absurd (omega arith)
map_from_one (suc rounds) last a pa perm pt new m m' b e h =
    let stop : (a == last) ≡ true = ground arith in rw (h, stop) refl

-- mappages() of one page that the tree reaches and that has no valid entry.
pub mappages_present :
    (pt : PageTable) (va pa perm : ℕ) (m : Memory)
    → va < max_va
    → va % page_size ≡ 0
    → IsPresent pt (va / 4096)
    → has_bit pte_v (entry pt (va / 4096)) ≡ false
    → mappages pt va page_size pa perm m
      ≡ ret (true, put_leaf pt (va / 4096) (pa2pte pa + set_bit pte_v perm), m)
unfolding mappages
mappages_present pt va pa perm m b al p free =
    let start : va ≡ page_round_down va = omega arith in
    let one : map_page pt (page_round_down va) pa perm m
        ≡ ret (true, put_leaf pt (va / 4096) (pa2pte pa + set_bit pte_v perm), m) =
      subst
        (λ a.
          map_page pt a pa perm m
          ≡ ret (true, put_leaf pt (va / 4096) (pa2pte pa + set_bit pte_v perm), m))
        start (map_page_present pt va pa perm m b p free) in
    map_from_one (2 ^ 26 + 1) (page_round_down (u64 (va + page_size - 1))) (page_round_down va) pa
      perm pt _ m m (omega arith) (omega arith) one
