-- ===== src/Paging/Fault/Counted.antt =====
-- Project-2, kernel/pfault.c: the tracker with the count of the heap pages in memory.
use cse_536_advanced_operati.Base.{
  ℕ, ◌+◌, ◌-◌, ◌≤◌, ◌≡◌, refl, sym, ap, subst, ◌∙◌, ℕ_discrete, if_true, if_false, inl, inr, true,
  false, some, arith,
}
use cse_536_advanced_operati.Paging.State.{HeapPage, put_heap, Kernel, max_heap, max_res_heap}
use cse_536_advanced_operati.Paging.Swap.Victim.{IsTimed}
use cse_536_advanced_operati.Paging.Fault.Loaded.{
  loaded_below, put_heap_one_more, loaded_below-victim,
}
use cse_536_advanced_operati.Paging.Swap.{victim}

-- The count of the pages in memory, the tracker and the clock.
abbrev pub Seen : Type 0
Seen = ℕ × (ℕ → HeapPage) × ℕ

abbrev pub seen : Kernel → Seen
seen k = (k.proc.resident_heap_pages, k.proc.heap_tracker, k.ticks)

-- No page was loaded in the future, and the tracker has no more loaded pages than are counted, which
-- are `top` at most.
abbrev pub Bounded : ℕ → Seen → Type 0
Bounded top (r, h, t) = IsTimed h t × (loaded_below max_heap h ≤ r) × (r ≤ top)

-- What an eviction leaves of this.
abbrev pub evicted : ℕ → ℕ → Seen → Seen
evicted position blockno (r, h, t) = (
  r - 1,
  put_heap h position (record (h position) { loaded = false; startblock = some blockno }),
  t,
)

-- And a page that is brought in.
abbrev pub brought_in : ℕ → Seen → Seen
brought_in place (r, h, t) =
    (r + 1, put_heap h place (record (h place) { last_load_time = t; loaded = true }), t)

put_heap-IsTimed :
    (h : ℕ → HeapPage) (t i : ℕ) (e : HeapPage)
    → IsTimed h t
    → (e.loaded ≡ true → e.last_load_time ≤ t)
    → IsTimed (put_heap h i e) t
put_heap-IsTimed h t i e (small, timed) own = (
  small,
  λ j l. elim (ℕ_discrete j i) [
    | yes at ↦
        let same : put_heap h i e j ≡ e = if_true e (h j) (ground arith) in
        let late = own (sym (ap (λ (p : HeapPage). p.loaded) same) ∙ l) in
        subst (λ (p : HeapPage). p.last_load_time ≤ t) (sym same) late
    | no d ↦
        let same : put_heap h i e j ≡ h j = if_false e (h j) (ground arith) in
        let late = timed j (sym (ap (λ (p : HeapPage). p.loaded) same) ∙ l) in
        subst (λ (p : HeapPage). p.last_load_time ≤ t) (sym same) late
  ],
)

pub evicted-Bounded :
    (blockno : ℕ) (s : Seen)
    → Bounded max_res_heap s
    → s.0 ≡ max_res_heap
    → Bounded (max_res_heap - 1) (evicted (victim s.1 s.2) blockno s)
evicted-Bounded blockno (r, h, t) (timed, counted, few) full =
    let e = record (h (victim h t)) { loaded = false; startblock = some blockno } in
    (
      put_heap-IsTimed h t (victim h t) e timed (λ l. absurd (cc)),
      elim (loaded_below-victim h t e timed refl) [
        | inl none_left ↦ omega arith
        | inr one_less ↦ omega arith
      ],
      omega arith,
    )

pub brought_in-Bounded :
    (place : ℕ) (s : Seen)
    → Bounded (max_res_heap - 1) s
    → Bounded max_res_heap (brought_in place s)
brought_in-Bounded place (r, h, t) (timed, counted, few) =
    let e = record (h place) { last_load_time = t; loaded = true } in
    let more = put_heap_one_more max_heap place h e in
    (put_heap-IsTimed h t place e timed (λ l. omega arith), omega arith, omega arith)
