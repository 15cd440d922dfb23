-- ===== src/Paging/Fault/Loaded.antt =====
-- Project-2, kernel/pfault.c: how many entries of the tracker are loaded.
use cse_536_advanced_operati.Base.{
  ℕ, zero, suc, ◌+◌, ◌<◌, ◌≤◌, ◌≡◌, refl, sym, ap, ◌∙◌, true, false, inl, inr, ◌⊎◌, if◌then◌else◌,
  arith, Bool-cases, ℕ_discrete, if_true, if_false,
}
use cse_536_advanced_operati.Paging.State.{HeapPage, max_heap, put_heap}
use cse_536_advanced_operati.Paging.Swap.{victim}
use cse_536_advanced_operati.Paging.Swap.Victim.{IsTimed, victim-IsOldest}

-- The number of loaded entries among the first `n`.
unfoldable pub loaded_below : ℕ → (ℕ → HeapPage) → ℕ
loaded_below zero h = 0
loaded_below (suc n) h = let rest = loaded_below n h in if (h n).loaded then rest + 1 else rest

suc_loaded :
    (n : ℕ) (h : ℕ → HeapPage) → (h n).loaded ≡ true → loaded_below (suc n) h ≡ loaded_below n h + 1
unfolding loaded_below
suc_loaded n h l = if_true _ _ l

suc_absent :
    (n : ℕ) (h : ℕ → HeapPage) → (h n).loaded ≡ false → loaded_below (suc n) h ≡ loaded_below n h
unfolding loaded_below
suc_absent n h a = if_false _ _ a

some_loaded :
    (n : ℕ) (h : ℕ → HeapPage)
    → (loaded_below n h ≡ 0) ⊎ ((j : ℕ) × (j < n) × ((h j).loaded ≡ true))
unfolding loaded_below
some_loaded zero h = inl refl
some_loaded (suc n) h = elim (Bool-cases (h n).loaded) [
  | inl l ↦ inr (n, omega arith, l)
  | inr a ↦ elim (some_loaded n h) [
    | inl e ↦ inl (if_false _ _ a ∙ e)
    | inr (j, b, l) ↦ inr (j, omega arith, l)
  ]
]

-- A change of an entry behind those that are counted.
put_heap_behind :
    (n i : ℕ) (h : ℕ → HeapPage) (e : HeapPage)
    → n ≤ i
    → loaded_below n (put_heap h i e) ≡ loaded_below n h
unfolding loaded_below
put_heap_behind zero i h e b = refl
put_heap_behind (suc n) i h e b =
    let rest = put_heap_behind n i h e (omega arith) in
    let same : put_heap h i e n ≡ h n = if_false e (h n) (ground arith) in rw (same, rest) refl

pub put_heap_one_more :
    (n i : ℕ) (h : ℕ → HeapPage) (e : HeapPage)
    → loaded_below n (put_heap h i e) ≤ loaded_below n h + 1
unfolding loaded_below
put_heap_one_more zero i h e = omega arith
put_heap_one_more (suc n) i h e = elim (ℕ_discrete n i) [
  | yes at ↦ let rest = put_heap_behind n i h e (omega arith) in ground arith
  | no d ↦
      let rest = put_heap_one_more n i h e in
      let same : put_heap h i e n ≡ h n = if_false e (h n) (ground arith) in rw same (ground arith)
]

-- An entry that was loaded and is not any more.
put_heap_one_less :
    (n i : ℕ) (h : ℕ → HeapPage) (e : HeapPage)
    → i < n
    → (h i).loaded ≡ true
    → e.loaded ≡ false
    → loaded_below n (put_heap h i e) + 1 ≡ loaded_below n h
unfolding loaded_below
put_heap_one_less zero i h e b l a = absurd (omega arith)
put_heap_one_less (suc n) i h e b l a = elim (ℕ_discrete n i) [
  | yes at ↦
      let rest = put_heap_behind n i h e (omega arith) in
      let here : put_heap h i e n ≡ e = if_true e (h n) (ground arith) in
      let was = suc_loaded n h (ap (λ k. (h k).loaded) at ∙ l) in
      let now = suc_absent n (put_heap h i e) (ap (λ (p : HeapPage). p.loaded) here ∙ a) in
      ap (λ x. x + 1) (now ∙ rest) ∙ sym was
  | no d ↦
      let rest = put_heap_one_less n i h e (omega arith) l a in
      let same : put_heap h i e n ≡ h n = if_false e (h n) (ground arith) in rw same (ground arith)
]

none_below :
    (n i : ℕ) (h : ℕ → HeapPage) (e : HeapPage)
    → loaded_below n h ≡ 0
    → e.loaded ≡ false
    → loaded_below n (put_heap h i e) ≡ 0
unfolding loaded_below
none_below zero i h e z a = refl
none_below (suc n) i h e z a = elim (ℕ_discrete n i) [
  | yes at ↦
      let rest = put_heap_behind n i h e (omega arith) in
      let here : put_heap h i e n ≡ e = if_true e (h n) (ground arith) in
      let zero_n : loaded_below n h ≡ 0 = ground arith in
      suc_absent n (put_heap h i e) (ap (λ (p : HeapPage). p.loaded) here ∙ a) ∙ rest ∙ zero_n
  | no d ↦
      let rest = none_below n i h e (ground arith) a in
      let same : put_heap h i e n ≡ h n = if_false e (h n) (ground arith) in rw same (ground arith)
]

-- Where a page is loaded, the victim leaves one loaded page less.
pub loaded_below-victim :
    (h : ℕ → HeapPage) (curr : ℕ) (e : HeapPage)
    → IsTimed h curr
    → e.loaded ≡ false
    → (loaded_below max_heap (put_heap h (victim h curr) e) ≡ 0)
      ⊎ (loaded_below max_heap (put_heap h (victim h curr) e) + 1 ≡ loaded_below max_heap h)
loaded_below-victim h curr e timed a = elim (some_loaded max_heap h) [
  | inl z ↦ inl (none_below max_heap (victim h curr) h e z a)
  | inr (j, b, l) ↦
      let o = victim-IsOldest h curr j timed b l in
      inr (put_heap_one_less max_heap (victim h curr) h e o.below o.loaded a)
]
