-- ===== src/Paging/Swap/Victim.antt =====
-- Project-2, kernel/pfault.c: the page that evict_page_to_disk() chooses.
use cse_536_advanced_operati.Base.{
  ℕ, zero, suc, ◌+◌, ◌^◌, ◌<◌, ◌≤◌, ◌≡◌, refl, sym, ap, ◌∙◌, subst, ◌⊎◌, inl, inr, true, false,
  ◌&&◌, ltb, if◌then◌else◌, arith, Bool-cases, ℕ_discrete,
}
use cse_536_advanced_operati.Paging.State.{HeapPage, max_heap}
use cse_536_advanced_operati.Paging.Swap.{age_key, long_less, find_victim, victim}

-- No loaded page was loaded in the future, and the clock is a uint.
abbrev pub IsTimed : (ℕ → HeapPage) → ℕ → Type 0
IsTimed h curr = (curr < 2 ^ 32) × ((j : ℕ) → (h j).loaded ≡ true → (h j).last_load_time ≤ curr)

-- Of the pages below `i` page `v` is the one loaded first, and the first such.
pub record IsOldest (h : ℕ → HeapPage) (i v : ℕ) : Type 0 where
  pub below : v < i
  pub loaded : (h v).loaded ≡ true
  pub oldest : (j : ℕ) → j < i → (h j).loaded ≡ true → (h v).last_load_time ≤ (h j).last_load_time
  pub first : (j : ℕ) → j < v → (h j).loaded ≡ true → (h v).last_load_time < (h j).last_load_time

-- The loop before place `i`: the best page so far, or none that is loaded.
abbrev Best : (ℕ → HeapPage) → ℕ → ℕ → ℕ → ℕ → Type 0
Best h curr i largest v =
    (IsOldest h i v × (largest ≡ age_key (h v).last_load_time curr))
    ⊎ (((j : ℕ) → j < i → (h j).loaded ≡ false) × (largest ≡ 0x0fff_ffff_ffff_ffff))

less-age_key :
    (a b curr : ℕ)
    → a ≤ curr
    → b ≤ curr
    → curr < 2 ^ 32
    → long_less (age_key a curr) (age_key b curr) ≡ ltb a b
less-age_key a b curr l m s = ground arith

less-first :
    (a curr : ℕ)
    → a ≤ curr
    → curr < 2 ^ 32
    → long_less (age_key a curr) 0x0fff_ffff_ffff_ffff ≡ true
less-first a curr l s = ground arith

-- A page that is not loaded changes nothing.
skip-IsOldest :
    (h : ℕ → HeapPage) (i v : ℕ) → (h i).loaded ≡ false → IsOldest h i v → IsOldest h (i + 1) v
skip-IsOldest h i v n o = record {
  below = omega (arith, o.below);
  loaded = o.loaded;
  oldest = λ j b l. elim (ℕ_discrete j i) [
    | yes e ↦ absurd (cc (ap (λ x. (h x).loaded) e, n, l))
    | no d ↦ o.oldest j (omega arith) l
  ];
  first = o.first;
}

-- A page that was not loaded before the best one neither.
later-IsOldest :
    (h : ℕ → HeapPage) (i v : ℕ)
    → (h v).last_load_time ≤ (h i).last_load_time
    → IsOldest h i v
    → IsOldest h (i + 1) v
later-IsOldest h i v t o = record {
  below = omega (arith, o.below);
  loaded = o.loaded;
  oldest = λ j b l. elim (ℕ_discrete j i) [
    | yes e ↦ subst (λ x. (h v).last_load_time ≤ (h x).last_load_time) (sym e) t
    | no d ↦ o.oldest j (omega arith) l
  ];
  first = o.first;
}

-- A page that was loaded before all the others is the best one.
new-IsOldest :
    (h : ℕ → HeapPage) (i : ℕ)
    → (h i).loaded ≡ true
    → ((j : ℕ) → j < i → (h j).loaded ≡ true → (h i).last_load_time < (h j).last_load_time)
    → IsOldest h (i + 1) i
new-IsOldest h i l t = record {
  below = omega arith;
  loaded = l;
  oldest = λ j b m. elim (ℕ_discrete j i) [
    | yes e ↦ subst (λ x. (h i).last_load_time ≤ (h x).last_load_time) (sym e) (omega arith)
    | no d ↦ let less = t j (omega arith) m in omega arith
  ];
  first = t;
}

none_loaded :
    (h : ℕ → HeapPage) (i : ℕ)
    → (h i).loaded ≡ false
    → ((j : ℕ) → j < i → (h j).loaded ≡ false)
    → (j : ℕ) → j < i + 1
    → (h j).loaded ≡ false
none_loaded h i n none_yet j b = elim (ℕ_discrete j i) [
  | yes d ↦ ap (λ x. (h x).loaded) d ∙ n
  | no d ↦ none_yet j (omega arith)
]

Best-step :
    (h : ℕ → HeapPage) (curr i largest v : ℕ)
    → IsTimed h curr
    → Best h curr i largest v
    → (let key = age_key (h i).last_load_time curr in
        let better = (h i).loaded && long_less key largest in
        Best h curr (i + 1) (if better then key else largest) (if better then i else v))
Best-step h curr i largest v (s, timed) best = elim (Bool-cases (h i).loaded) [
  | inr n ↦ rw n (elim best [
    | inl (o, e) ↦ inl (skip-IsOldest h i v n o, e)
    | inr (none_yet, e) ↦ inr (none_loaded h i n none_yet, e)
  ])
  | inl l ↦ elim best [
    | inl (o, e) ↦
        let order =
          less-age_key (h i).last_load_time (h v).last_load_time curr (timed i l) (timed v o.loaded)
            s in
        elim (Bool-cases (ltb (h i).last_load_time (h v).last_load_time)) [
          | inl y ↦
              rw (l, e, order, y)
                (inl
                  (new-IsOldest h i l (λ j b m. let least = o.oldest j b m in ground arith), refl))
          | inr n ↦ rw (l, e, order, n) (inl (later-IsOldest h i v (ground arith) o, refl))
        ]
    | inr (none_yet, e) ↦
        rw (l, e, less-first (h i).last_load_time curr (timed i l) s)
          (inl (new-IsOldest h i l (λ j b m. absurd (cc (none_yet j b, m))), refl))
  ]
]

find_victim-Best :
    (h : ℕ → HeapPage) (curr rounds i largest v : ℕ)
    → IsTimed h curr
    → Best h curr i largest v
    → (last : ℕ) × Best h curr (i + rounds) last (find_victim rounds i h curr largest v)
unfolding find_victim
find_victim-Best h curr zero i largest v t b =
    (largest, subst (λ n. Best h curr n largest v) (omega arith) b)
find_victim-Best h curr (suc rounds) i largest v t b =
    let (last, on) =
      find_victim-Best h curr rounds (i + 1) _ _ t (Best-step h curr i largest v t b) in
    (
      last,
      subst (λ n. Best h curr n last (find_victim (suc rounds) i h curr largest v)) (omega arith)
          on,
    )

-- Where no load time lies in the future and some page is loaded, the victim is a loaded page of the
-- tracker, none was loaded before it, and of those loaded at the same time it is the first.
pub victim-IsOldest :
    (h : ℕ → HeapPage) (curr j : ℕ)
    → IsTimed h curr
    → j < max_heap
    → (h j).loaded ≡ true
    → IsOldest h max_heap (victim h curr)
unfolding victim
victim-IsOldest h curr j t b l =
    let (last, best) =
      find_victim-Best h curr max_heap 0 0x0fff_ffff_ffff_ffff 0 t
        (inr (λ k u. absurd (omega arith), refl)) in
    elim best [ inl (o, e) ↦ o | inr (none_yet, e) ↦ absurd (cc (none_yet j b, l)) ]
