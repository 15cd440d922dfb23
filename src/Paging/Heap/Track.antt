-- ===== src/Paging/Heap/Track.antt =====
-- Project-2, kernel/proc.c: the entries that growproc() makes for pages that are allocated on demand.
use cse_536_advanced_operati.Base.{
  ℕ, zero, suc, ◌+◌, ◌-◌, ◌%◌, ◌^◌, ◌<◌, ◌≤◌, ◌≡◌, ◌≢◌, refl, ap, ap₂, ◌∙◌, ◌⊎◌, inl, inr, true,
  false, none, ◌*◌, ◌&&◌, ltb, leb, ◌==◌, if◌then◌else◌, ret, panic, arith, Bool-cases, ℕ_discrete,
  if_false,
}
use cse_536_advanced_operati.Paging.State.{HeapPage, Kernel, max_heap, no_address, put_heap}
use cse_536_advanced_operati.Paging.Heap.{
  new_page, track_from, track_heap, track_growth, growproc, int_pages, int_round_up,
}

-- The tracker after `n` entries from place `first` on are made: entry `i` has the address
-- `start + i * PGSIZE`, is not loaded and has no block, and keeps its load time.
abbrev pub tracked_from : ℕ → ℕ → ℕ → (ℕ → HeapPage) → ℕ → HeapPage
tracked_from start first n h i =
    if leb first i && ltb i (first + n)
    then record (h i) { addr = (start + i * 4096) % 2 ^ 64; loaded = false; startblock = none }
    else h i

-- From place `i` on all entries are free.
abbrev pub IsFreeFrom : ℕ → (ℕ → HeapPage) → Type 0
IsFreeFrom i h = (j : ℕ) → i ≤ j → (h j).addr ≡ no_address

-- Before place `i` all entries are in use.
abbrev pub IsUsedBelow : ℕ → (ℕ → HeapPage) → Type 0
IsUsedBelow i h = (j : ℕ) → j < i → (h j).addr ≢ no_address

-- With a count above the number of places left the loop ends in the panic.
track_from_panics :
    (rounds i start left : ℕ) (h : ℕ → HeapPage)
    → rounds < left
    → left < 2 ^ 32
    → track_from rounds i start left h ≡ panic
unfolding track_from
track_from_panics zero i start left h b s = refl
track_from_panics (suc rounds) i start left h b s = elim (Bool-cases ((h i).addr == no_address)) [
  | inl y ↦
      let more : ((left + (2 ^ 32 - 1)) % 2 ^ 32 == 0) ≡ false = ground arith in
      rw (y, more)
        (track_from_panics rounds (i + 1) start ((left + (2 ^ 32 - 1)) % 2 ^ 32) _ (omega arith)
          (omega arith))
  | inr n ↦ rw n (track_from_panics rounds (i + 1) start left h (omega arith) s)
]

-- A count of 0 does not either: the first free place makes it -1.
track_from_zero :
    (rounds i start : ℕ) (h : ℕ → HeapPage)
    → rounds ≤ max_heap
    → track_from rounds i start 0 h ≡ panic
unfolding track_from
track_from_zero zero i start h b = refl
track_from_zero (suc rounds) i start h b = elim (Bool-cases ((h i).addr == no_address)) [
  | inl y ↦ rw y (track_from_panics rounds (i + 1) start (2 ^ 32 - 1) _ (omega arith) (omega arith))
  | inr n ↦ rw n (track_from_zero rounds (i + 1) start h (omega arith))
]

-- Places in use are passed over.
track_from_skip :
    (used total rounds i u start left : ℕ) (h : ℕ → HeapPage)
    → total ≡ used + rounds
    → u ≡ i + used
    → ((j : ℕ) → i ≤ j → j < u → (h j).addr ≢ no_address)
    → track_from total i start left h ≡ track_from rounds u start left h
unfolding track_from
track_from_skip zero total rounds i u start left h t e f =
    ap₂ (λ r p. track_from r p start left h) (omega arith) (omega arith)
track_from_skip (suc used) zero rounds i u start left h t e f = absurd (omega arith)
track_from_skip (suc used) (suc total) rounds i u start left h t e f =
    let taken : ((h i).addr == no_address) ≡ false =
      ground (arith, f i (omega arith) (omega arith)) in
    rw taken (
      track_from_skip used total rounds (i + 1) u start left h (omega arith) (omega arith)
        (λ j l b. f j (omega arith) b))

track_from_one :
    (rounds i start n : ℕ) (h : ℕ → HeapPage)
    → ((h i).addr == no_address) ≡ true
    → (let left = (n + (2 ^ 32 - 1)) % 2 ^ 32 in
        let tracked = put_heap h i (new_page start i (h i)) in
        track_from (suc rounds) i start n h
        ≡ (if left == 0 then ret tracked else track_from rounds (i + 1) start left tracked))
unfolding track_from
track_from_one rounds i start n h free = rw free refl

one_entry :
    (start i j : ℕ) (h : ℕ → HeapPage)
    → put_heap h i (new_page start i (h i)) j ≡ tracked_from start i 1 h j
one_entry start i j h = elim (ℕ_discrete j i) [ yes e ↦ rw e (ground arith) | no n ↦ ground arith ]

more_entries :
    (start i n j : ℕ) (h : ℕ → HeapPage)
    → tracked_from start (i + 1) (suc n) (put_heap h i (new_page start i (h i))) j
      ≡ tracked_from start i (suc (suc n)) h j
more_entries start i n j h = elim (ℕ_discrete j i) [
  | yes e ↦ rw e (ground arith)
  | no n ↦ ground arith
]

-- At free places an entry is made in each round.
track_from_free :
    (rounds i start n : ℕ) (h : ℕ → HeapPage)
    → suc n ≤ rounds
    → suc n < 2 ^ 32
    → IsFreeFrom i h
    → (new : ℕ → HeapPage) × (track_from rounds i start (suc n) h ≡ ret new)
      × ((j : ℕ) → new j ≡ tracked_from start i (suc n) h j)
unfolding track_from
track_from_free zero i start n h b s f = absurd (omega arith)
track_from_free (suc rounds) i start zero h b s f =
    let free : ((h i).addr == no_address) ≡ true = ground (arith, f i (omega arith)) in
    (put_heap h i (new_page start i (h i)), rw free refl, λ j. one_entry start i j h)
track_from_free (suc rounds) i start (suc n) h b s f =
    let free : ((h i).addr == no_address) ≡ true = ground (arith, f i (omega arith)) in
    let left : (suc (suc n) + (2 ^ 32 - 1)) % 2 ^ 32 ≡ suc n = omega arith in
    let tracked : ℕ → HeapPage = put_heap h i (new_page start i (h i)) in
    let more : (suc n == 0) ≡ false = ground arith in
    let (new, returns, entries) =
      track_from_free rounds (i + 1) start n tracked (omega arith) (omega arith)
        (λ j l. ground (arith, f j (omega arith))) in
    (
      new,
      track_from_one rounds i start (suc (suc n)) h free
          ∙ ap (λ c. if c == 0 then ret tracked else track_from rounds (i + 1) start c tracked) left
          ∙ if_false _ _ more
          ∙ returns,
      λ j. entries j ∙ more_entries start i n j h,
    )

-- On a process whose tracker has its first `used` entries in use and the others free, track_heap()
-- of `n` pages that fit makes the entries that follow, and changes no other. The address of entry
-- `i` is `start + i * PGSIZE` by 64 bits, whatever `used` is.
pub track_heap_lem :
    (start used n : ℕ) (h : ℕ → HeapPage)
    → IsUsedBelow used h
    → IsFreeFrom used h
    → 0 < n
    → used + n ≤ max_heap
    → (new : ℕ → HeapPage) × (track_heap start n h ≡ ret new)
      × ((j : ℕ) → new j ≡ tracked_from start used n h j)
unfolding track_heap
track_heap_lem start used zero h below free p b = absurd (omega arith)
track_heap_lem start used (suc n) h below free p b =
    let skip =
      track_from_skip used max_heap (max_heap - used) 0 used start (suc n) h (omega arith)
        (omega arith) (λ j l u. below j u) in
    let (new, returns, entries) =
      track_from_free (max_heap - used) used start n h (omega arith) (omega arith) free in
    (new, skip ∙ returns, entries)

-- With memory on demand, sbrk() by 0 or by a negative number of bytes stops the kernel.
growproc_panics :
    (bytes : ℕ) (k : Kernel)
    → k.proc.ondemand ≡ true
    → (bytes ≡ 0) ⊎ (2 ^ 31 ≤ bytes × bytes < 2 ^ 32)
    → growproc bytes k ≡ panic
unfolding growproc track_growth track_heap
growproc_panics bytes k d n = elim (ℕ_discrete (int_pages (int_round_up bytes)) 0) [
  | yes e ↦ rw (d, e, track_from_zero max_heap 0 k.proc.sz k.proc.heap_tracker (omega arith)) refl
  | no m ↦
      let many : max_heap < int_pages (int_round_up bytes) = ground arith in
      let small : int_pages (int_round_up bytes) < 2 ^ 32 = ground arith in
      rw
        (
          d,
          track_from_panics max_heap 0 k.proc.sz (int_pages (int_round_up bytes))
              k.proc.heap_tracker many small,
        )
        refl
]
