-- ===== src/Paging/Fault/Resident.antt =====
-- Project-2, kernel/pfault.c: the bound on the heap pages in memory.
use cse_536_advanced_operati.Base.{
  ℕ, ◌+◌, ◌-◌, ◌/◌, ◌≤◌, ◌≡◌, refl, sym, ap, subst, ◌∙◌, inl, inr, Bool, true, false, ◌&&◌, Option,
  none, some, ◌==◌, if◌then◌else◌, Outcome, ret, ◌>>=◌, >>=-eq-ret, ret_injective, u64, set_bit,
  arith, Bool-cases, eq-of-==, Option-cases,
}
use cse_536_advanced_operati.Vm.Memory.{page_size, kalloc, kfree, memmove}
use cse_536_advanced_operati.Vm.Table.{pte2pa, pte_flags, pte_w, mappages, walk, page_round_down}
use cse_536_advanced_operati.Vm.User.{copyin_page, copyout, uvmunmap, uvmalloc}
use cse_536_advanced_operati.Paging.State.{Kernel, max_heap, max_res_heap, psa_size, kept_by_group}
use cse_536_advanced_operati.Paging.Swap.Victim.{IsTimed}
use cse_536_advanced_operati.Paging.Fault.Loaded.{loaded_below}
use cse_536_advanced_operati.Paging.Swap.{
  find_block, victim, write_page, drop_page, evict_page_to_disk, read_page, retrieve_from,
  retrieve_page_from_disk, find_heap,
}
use cse_536_advanced_operati.Paging.Fork.{copy_on_write, replace_page, mapped_or_panic}
use cse_536_advanced_operati.Paging.Fault.{
  File, Segment, Search, bad, no_segment, found, flags2perm, loadseg, search_program, load_segment,
  program_fault, mark_loaded, count_page, bring_in, heap_fault, page_fault_handler,
}
use cse_536_advanced_operati.Paging.Fault.Counted.{
  Seen, seen, Bounded, evicted, brought_in, evicted-Bounded, brought_in-Bounded,
}

seen-drop_page :
    (position blockno : ℕ) (k new : Kernel)
    → drop_page position blockno k ≡ ret new
    → seen new ≡ evicted position blockno (seen k)
unfolding drop_page
seen-drop_page position blockno k new h =
    let (w, unmapped, done) =
      >>=-eq-ret
        (uvmunmap (kept_by_group k.proc k.groups) k.proc.pagetable
          (k.proc.heap_tracker position).addr 1 true k.memory)
        _ h in
    sym (ap seen (ret_injective done))

seen-read_page : (b dst : ℕ) (k : Kernel) → seen (read_page 4 0 b dst k) ≡ seen k
unfolding read_page
seen-read_page b dst k = refl

seen-evict :
    (k new : Kernel)
    → evict_page_to_disk k ≡ ret new
    → seen new
      ≡ evicted
          (victim k.proc.heap_tracker k.ticks)
          (find_block (psa_size / 4) 0 k.psa_tracker)
          (seen k)
unfolding evict_page_to_disk write_page
seen-evict k new h =
    let place = victim k.proc.heap_tracker k.ticks in
    elim (Option-cases (kalloc k.memory).0) [
      | inl e ↦ absurd (cc (rw (evict_page_to_disk, e) at h))
      | inr (pa, e) ↦
          let (copied, read, dropped) =
            >>=-eq-ret
              (copyin_page k.proc.pagetable (kalloc k.memory).1 pa (k.proc.heap_tracker place).addr)
              _ (rw (evict_page_to_disk, e) at h) in
          seen-drop_page place (find_block (psa_size / 4) 0 k.psa_tracker)
            (write_page 4 0 (find_block (psa_size / 4) 0 k.psa_tracker) pa
              (record k { memory = copied.1 }))
            new dropped
    ]

seen-retrieve_from :
    (uvaddr place : ℕ) (k new : Kernel) → retrieve_from uvaddr place k ≡ ret new → seen new ≡ seen k
unfolding retrieve_from read_page
seen-retrieve_from uvaddr place k new h = elim (Option-cases (kalloc k.memory).0) [
  | inl e ↦ absurd (cc (rw (retrieve_from, e) at h))
  | inr (pa, e) ↦ elim (Option-cases (k.proc.heap_tracker place).startblock) [
    | inl n ↦ absurd (cc (rw (retrieve_from, e, n) at h))
    | inr (b, n) ↦
        let filled = read_page 4 0 b pa (record k { memory = (kalloc k.memory).1 }) in
        let (copied, wrote, closed) =
          >>=-eq-ret (copyout filled.proc.pagetable filled.memory uvaddr pa page_size) _
            (rw (retrieve_from, e, n) at h) in
        let (freed, free, done) = >>=-eq-ret (kfree pa copied.1) _ closed in
        sym (ap seen (ret_injective done))
  ]
]

seen-retrieve :
    (uvaddr : ℕ) (k new : Kernel) → retrieve_page_from_disk uvaddr k ≡ ret new → seen new ≡ seen k
unfolding retrieve_page_from_disk
seen-retrieve uvaddr k new h =
    elim (Option-cases (find_heap max_heap 0 k.proc.heap_tracker uvaddr)) [
      | inl e ↦ absurd (cc (rw (retrieve_page_from_disk, e) at h))
      | inr (place, e) ↦
          seen-retrieve_from uvaddr place k new (rw (retrieve_page_from_disk, e) at h)
    ]

seen-replace_page :
    (addr pte m : ℕ) (k new : Kernel) → replace_page addr pte m k ≡ ret new → seen new ≡ seen k
unfolding replace_page
seen-replace_page addr pte m k new h =
    let copied = record k.memory { byte = memmove k.memory.byte m (pte2pa pte) page_size } in
    let (cleared, unmapped, rest) =
      >>=-eq-ret (uvmunmap (kept_by_group k.proc k.groups) k.proc.pagetable addr 1 false copied) _
        h in
    let (w, mapped, done) =
      >>=-eq-ret
        (mappages cleared.0 addr page_size m (set_bit pte_w (pte_flags pte)) cleared.1
          >>= mapped_or_panic)
        _ rest in
    sym (ap seen (ret_injective done))

seen-copy_on_write :
    (stval : ℕ) (k new : Kernel) → copy_on_write stval k ≡ ret new → seen new ≡ seen k
unfolding copy_on_write
seen-copy_on_write stval k new h =
    let (entry, walked, rest) = >>=-eq-ret (walk k.proc.pagetable (page_round_down stval)) _ h in
    elim (Option-cases entry) [
      | inl n ↦ absurd (cc (rw n at rest))
      | inr (pte, e) ↦ elim (Option-cases (kalloc k.memory).0) [
        | inl n ↦ absurd (cc (rw (e, n) at rest))
        | inr (m, a) ↦
            seen-replace_page (page_round_down stval) pte m
              (record k { memory = (kalloc k.memory).1 }) new (rw (e, a) at rest)
      ]
    ]

seen-load_segment :
    (f : File) (ph : Segment) (k : Kernel) (w : Bool × Kernel)
    → load_segment f ph k ≡ ret w
    → seen w.1 ≡ seen k
unfolding load_segment
seen-load_segment f ph k w h =
    let (a, alloc, rest) =
      >>=-eq-ret
        (uvmalloc (kept_by_group k.proc k.groups) k.proc.pagetable ph.vaddr
          (u64 (ph.vaddr + ph.memsz)) (flags2perm ph.flags) k.memory)
        _ h in
    let (read, loaded, done) = >>=-eq-ret (loadseg a.1 ph.vaddr f ph.off ph.filesz a.2) _ rest in
    sym (ap (λ (t : Bool × Kernel). seen t.1) (ret_injective done))

seen_found :
    (s : Search) (f : File) (k : Kernel) (w : Bool × Kernel)
    → elim s as (λ _. Outcome (Bool × Kernel)) [
      | bad ↦ ret (false, k)
      | no_segment ↦ ret (true, k)
      | found ph ↦ load_segment f ph k
    ]
      ≡ ret w
    → seen w.1 ≡ seen k
seen_found bad f k w h = sym (ap (λ (t : Bool × Kernel). seen t.1) (ret_injective h))
seen_found no_segment f k w h = sym (ap (λ (t : Bool × Kernel). seen t.1) (ret_injective h))
seen_found (found ph) f k w h = seen-load_segment f ph k w h

seen-program_fault :
    (f : Option File) (addr : ℕ) (k : Kernel) (w : Bool × Kernel)
    → program_fault f addr k ≡ ret w
    → seen w.1 ≡ seen k
unfolding program_fault
seen-program_fault none addr k w h = sym (ap (λ (t : Bool × Kernel). seen t.1) (ret_injective h))
seen-program_fault (some f) addr k w h = seen_found (search_program f addr) f k w h

seen_read :
    (b : Bool) (addr : ℕ) (k new : Kernel)
    → (if b then retrieve_page_from_disk addr k else ret k) ≡ ret new
    → seen new ≡ seen k
seen_read true addr k new h = seen-retrieve addr k new h
seen_read false addr k new h = sym (ap seen (ret_injective h))

-- Room is made before the count is raised.
seen_room :
    (b : Bool) (k new : Kernel)
    → (k.proc.resident_heap_pages == max_res_heap) ≡ b
    → (if b then evict_page_to_disk k else ret k) ≡ ret new
    → Bounded max_res_heap (seen k)
    → Bounded (max_res_heap - 1) (seen new)
seen_room true k new e h bounded =
    subst (Bounded (max_res_heap - 1)) (sym (seen-evict k new h)) (
      evicted-Bounded (find_block (psa_size / 4) 0 k.psa_tracker) (seen k) bounded (eq-of-== _ _ e))
seen_room false k new e h (timed, counted, few) =
    subst (Bounded (max_res_heap - 1)) (ap seen (ret_injective h)) (timed, counted, ground arith)

seen-bring_in :
    (place addr : ℕ) (b : Bool) (k new : Kernel)
    → bring_in place addr b k ≡ ret new
    → seen new ≡ brought_in place (seen k)
unfolding bring_in count_page mark_loaded
seen-bring_in place addr b k new h =
    let (w, alloc, rest) =
      >>=-eq-ret
        (uvmalloc (kept_by_group k.proc k.groups) k.proc.pagetable addr (addr + page_size) 4
          k.memory)
        _ h in
    let marked =
      mark_loaded place (record k { memory = w.2; proc = record k.proc { pagetable = w.1 } }) in
    elim (Bool-cases (w.0 == 0)) [
      | inl y ↦ absurd (cc (rw y at rest))
      | inr n ↦
          let (k', read, done) =
            >>=-eq-ret (if b then retrieve_page_from_disk addr marked else ret marked) _
              (rw n at rest) in
          sym (ap seen (ret_injective done))
          ∙ ap (λ (x : Seen). (x.0 + 1, x.1, x.2)) (seen_read b addr marked k' read)
    ]

seen-heap_fault :
    (place addr : ℕ) (k new : Kernel)
    → heap_fault place addr k ≡ ret new
    → Bounded max_res_heap (seen k)
    → Bounded max_res_heap (seen new)
unfolding heap_fault
seen-heap_fault place addr k new h bounded =
    let full = k.proc.resident_heap_pages == max_res_heap in
    let (k', room, rest) = >>=-eq-ret (if full then evict_page_to_disk k else ret k) _ h in
    subst (Bounded max_res_heap) (sym (seen-bring_in place addr _ k' new rest))
      (brought_in-Bounded place (seen k') (seen_room full k k' refl room bounded))

seen-page_fault_handler :
    (file : Option File) (stval scause : ℕ) (k : Kernel) (w : Bool × Kernel)
    → page_fault_handler file stval scause k ≡ ret w
    → Bounded max_res_heap (seen k)
    → Bounded max_res_heap (seen w.1)
unfolding page_fault_handler
seen-page_fault_handler file stval scause k w h b =
    elim (Bool-cases (k.proc.cow_enabled && scause == 15)) [
      | inl y ↦
          let (k', copied, done) =
            >>=-eq-ret (copy_on_write stval k) _ (rw (page_fault_handler, y) at h) in
          let same = ap (λ (t : Bool × Kernel). seen t.1) (ret_injective done) in
          subst (Bounded max_res_heap) (sym (seen-copy_on_write stval k k' copied) ∙ same) b
      | inr n ↦
          elim (Option-cases (find_heap max_heap 0 k.proc.heap_tracker (page_round_down stval))) [
            | inl e ↦
                let same =
                  seen-program_fault file (page_round_down stval) k w
                    (rw (page_fault_handler, n, e) at h) in
                subst (Bounded max_res_heap) (sym same) b
            | inr (place, e) ↦
                let (k', faulted, done) =
                  >>=-eq-ret (heap_fault place (page_round_down stval) k) _
                    (rw (page_fault_handler, n, e) at h) in
                let same = ap (λ (t : Bool × Kernel). seen t.1) (ret_injective done) in
                subst (Bounded max_res_heap) same
                  (seen-heap_fault place (page_round_down stval) k k' faulted b)
          ]
    ]

-- Where the tracker has at most as many loaded pages as resident_heap_pages counts, these are at most
-- MAXRESHEAP, and no load time lies in the future, then all this holds behind a page fault that the
-- handler survives. In particular at most MAXRESHEAP entries of the tracker are then loaded.
pub page_fault_handler_bound :
    (file : Option File) (stval scause : ℕ) (k : Kernel) (w : Bool × Kernel)
    → page_fault_handler file stval scause k ≡ ret w
    → IsTimed k.proc.heap_tracker k.ticks
    → loaded_below max_heap k.proc.heap_tracker ≤ k.proc.resident_heap_pages
    → k.proc.resident_heap_pages ≤ max_res_heap
    → (loaded_below max_heap w.1.proc.heap_tracker ≤ max_res_heap)
      × (loaded_below max_heap w.1.proc.heap_tracker ≤ w.1.proc.resident_heap_pages)
      × (w.1.proc.resident_heap_pages ≤ max_res_heap)
      × IsTimed w.1.proc.heap_tracker w.1.ticks
page_fault_handler_bound file stval scause k w h timed counted few =
    let (timed', counted', few') =
      seen-page_fault_handler file stval scause k w h (timed, counted, few) in
    (omega arith, counted', few', timed')
