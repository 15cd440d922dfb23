-- ===== src/Paging/Heap.antt =====
-- Project-2, kernel/proc.c and kernel/exec.c: the tracker of heap pages. An int is its 32 bits.
pub mod Track
use cse_536_advanced_operati.Base.{
  ℕ, zero, suc, ◌+◌, ◌-◌, ◌*◌, ◌/◌, ◌%◌, ◌^◌, Bool, true, false, not, ◌&&◌, Option, none, some, ltb,
  ◌==◌, if◌then◌else◌, Outcome, ret, panic, ◌>>=◌, u64, int_of_u64,
}
use cse_536_advanced_operati.Vm.Memory.{page_size}
use cse_536_advanced_operati.Vm.User.{uvmalloc, uvmdealloc}
use cse_536_advanced_operati.Paging.State.{
  HeapPage, Proc, Kernel, max_heap, no_address, kept_by_group, put_heap, set_proc,
}

-- The entry for a new page, at place `i` of the tracker.
abbrev pub new_page : ℕ → ℕ → HeapPage → HeapPage
new_page start i e = record e {
  addr = u64 (start + i * page_size);
  loaded = false;
  startblock = none;
}

-- The loop of track_heap() with `rounds` places left from `i` on. A count of 0 is decremented to -1
-- and never gets to 0.
unfoldable pub track_from : ℕ → ℕ → ℕ → ℕ → (ℕ → HeapPage) → Outcome (ℕ → HeapPage)
track_from zero i start npages h = panic
track_from (suc rounds) i start npages h =
    let free = (h i).addr == no_address in
    let left = if free then (npages + (2 ^ 32 - 1)) % 2 ^ 32 else npages in
    let tracked = if free then put_heap h i (new_page start i (h i)) else h in
    let rest = track_from rounds (i + 1) start left tracked in
    if free && left == 0 then ret tracked else rest

unfoldable pub track_heap : ℕ → ℕ → (ℕ → HeapPage) → Outcome (ℕ → HeapPage)
track_heap start npages h = track_from max_heap 0 start npages h

-- PGROUNDUP(n) of an int, and its quotient by 4096, which is exact.
abbrev pub int_round_up : ℕ → ℕ
int_round_up n = (n + 4095) % 2 ^ 32 / 4096 * 4096

abbrev pub int_pages : ℕ → ℕ
int_pages n = if ltb n (2 ^ 31) then n / 4096 else 2 ^ 32 - (2 ^ 32 - n) / 4096

-- growproc() of a process whose memory is allocated at once, to the size `target`.
unfoldable pub grow_up : ℕ → Kernel → Outcome (Bool × Kernel)
grow_up target k =
    let p = k.proc in
    uvmalloc (kept_by_group p k.groups) p.pagetable p.sz target 4 k.memory >>= λ w. ret (
      not (w.0 == 0),
      record k {
        memory = w.2;
        proc = record p { pagetable = w.1; sz = if w.0 == 0 then p.sz else w.0 };
      },
    )

unfoldable pub shrink : ℕ → Kernel → Outcome (Bool × Kernel)
shrink target k =
    let p = k.proc in
    uvmdealloc (kept_by_group p k.groups) p.pagetable p.sz target k.memory >>= λ w.
    ret (true, record k { memory = w.2; proc = record p { pagetable = w.1; sz = w.0 } })

unfoldable pub track_growth : ℕ → Kernel → Outcome (Bool × Kernel)
track_growth n k =
    let p = k.proc in
    track_heap p.sz (int_pages n) p.heap_tracker >>= λ h.
    ret (true, set_proc k (record p { heap_tracker = h; sz = u64 (p.sz + int_of_u64 n) }))

-- `false` is the result -1.
unfoldable pub growproc : ℕ → Kernel → Outcome (Bool × Kernel)
growproc bytes k =
    let n = int_round_up bytes in
    let target = u64 (k.proc.sz + int_of_u64 n) in
    if k.proc.ondemand
    then track_growth n k
    else if n == 0
    then ret (true, k)
    else if ltb n (2 ^ 31)
    then grow_up target k
    else shrink target k

-- The loop of exec() that clears the tracker.
unfoldable pub clear_heap : Proc → Proc
clear_heap p = record p {
  heap_tracker = λ i.
      if ltb i max_heap
      then record {
        addr = no_address;
        startblock = none;
        last_load_time = 2 ^ 64 - 1;
        loaded = false;
      }
      else p.heap_tracker i;
  resident_heap_pages = 0;
}
