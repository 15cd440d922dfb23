-- ===== src/Process/Table.antt =====
-- Project-2, kernel/proc.c: the operations on the process table.
pub mod Effects
pub mod Waiting
pub mod Quiet
use cse_536_advanced_operati.Base.{
  ℕ, zero, suc, ◌+◌, ◌%◌, ◌^◌, Bool, true, false, not, ◌&&◌, ◌||◌, Option, none, some, ltb, ◌==◌,
  if◌then◌else◌, Outcome, ret, panic, ◌>>=◌,
}
use cse_536_advanced_operati.Process.State.{
  ProcState, unused, used, sleeping, runnable, running, zombie, Chan, process, other, same_chan,
  is_unused, is_sleeping, is_runnable, is_zombie, Life, User, KernelOps, Rest, Processes, nproc,
  put,
}
use cse_536_advanced_operati.Process.User.{free_user, alloc_user, copy_memory, inherit, close_user}

abbrev pub same_parent : Option ℕ → ℕ → Bool
same_parent none i = false
same_parent (some j) i = j == i

-- The first process of `rounds` from `i` on that passes the test.
unfoldable pub find_proc : ℕ → ℕ → (Life → Bool) → (ℕ → Life) → Option ℕ
find_proc zero i test life = none
find_proc (suc rounds) i test life =
    let rest = find_proc rounds (i + 1) test life in if test (life i) then some i else rest

-- The loop of wakeup() over the table, for the process `cur`.
abbrev pub wakes : Option Chan → Chan → Bool
wakes none c = false
wakes (some d) c = same_chan d c

unfoldable pub wakeup : ℕ → Chan → (ℕ → Life) → ℕ → Life
wakeup cur chan life i =
    let p = life i in
    if ltb i nproc && not (i == cur) && is_sleeping p.state && wakes p.chan chan
    then record p { state = runnable }
    else p

-- wakeup() of the address of a process; that of a null pointer wakes none.
unfoldable pub wakeup_process : ℕ → Option ℕ → (ℕ → Life) → ℕ → Life
wakeup_process cur none life = life
wakeup_process cur (some j) life = wakeup cur (process j) life

-- The loop of reparent().
unfoldable pub reparent : ℕ → ℕ → ℕ → ℕ → (ℕ → Life) → ℕ → Life
reparent zero i cur init life = life
reparent (suc rounds) i cur init life = reparent rounds (i + 1) cur init (
    if same_parent (life i).parent cur
    then wakeup cur (process init) (put life i (record (life i) { parent = some init }))
    else life)

-- What freeproc() leaves of the life of a process.
abbrev pub free_life : Life
free_life = record {
  state = unused;
  chan = none;
  killed = false;
  xstate = 0;
  pid = 0;
  parent = none;
}

abbrev pub is_some : Option ℕ → Bool
is_some none = false
is_some (some i) = true

abbrev pub set_state : ProcState → Life → Life
set_state s p = record p { state = s }

abbrev pub is_child : ℕ → Life → Bool
is_child cur p = same_parent p.parent cur

abbrev pub is_dead_child : ℕ → Life → Bool
is_dead_child cur p = is_child cur p && is_zombie p.state

-- A turn of the loop of wait(): it returns a pid, or `none` for -1, or it sleeps.
pub data Waited (World Space : Type 0) : Type 0 where
  returns : Option ℕ → Processes World Space → Waited World Space
  sleeps : Processes World Space → Waited World Space

module _ {World Space : Type 0} where
  -- Process `i` with a pid of its own.
  unfoldable pub named_at : ℕ → Processes World Space → Rest World Space → Processes World Space
  named_at i k rest = record k {
    life = put k.life i (record (k.life i) { pid = k.nextpid; state = used });
    nextpid = (k.nextpid + 1) % 2 ^ 32;
    rest = rest;
  }

  unfoldable pub start_child :
      ℕ → ℕ → Processes World Space → Rest World Space → Processes World Space
  start_child cur i k rest = record k {
    life = put k.life i (record (k.life i) { parent = some cur; state = runnable });
    rest = rest;
  }

  -- The lives behind an exit(): the children go to init, the parent wakes up.
  unfoldable pub die : ℕ → ℕ → Processes World Space → ℕ → Life
  die cur status k =
      let orphaned = reparent nproc 0 cur k.initproc k.life in
      let woken = wakeup_process cur (orphaned cur).parent orphaned in
      put woken cur (record (woken cur) { xstate = status; state = zombie })

module _ {World Space : Type 0} (ops : KernelOps World Space) where
  unfoldable pub freeproc : ℕ → ℕ → Processes World Space → Outcome (Processes World Space)
  freeproc cur i k = free_user ops cur i k.rest >>= λ rest.
      ret (record k { life = put k.life i free_life; rest = rest })

  -- Without memory for the process its slot is free again.
  unfoldable pub keep_or_free :
      ℕ → ℕ → Bool → Processes World Space → Outcome (Bool × Processes World Space)
  keep_or_free cur i true k = ret (true, k)
  keep_or_free cur i false k = freeproc cur i k >>= λ freed. ret (false, freed)

  -- allocproc() at the free slot `i`.
  unfoldable pub alloc_at : ℕ → ℕ → Processes World Space → Outcome (Bool × Processes World Space)
  alloc_at cur i k =
      alloc_user ops i k.rest >>= λ made. keep_or_free cur i made.0 (named_at i k made.1)

  -- fork() behind the copy of the memory: the pid of the child, or `none` for -1.
  unfoldable pub start_or_free :
      ℕ → ℕ → Bool → Processes World Space → Outcome (Option ℕ × Processes World Space)
  start_or_free cur i true k =
      inherit ops cur i k.rest >>= λ rest. ret (some (k.life i).pid, start_child cur i k rest)
  start_or_free cur i false k = freeproc cur i k >>= λ freed. ret (none, freed)

  -- fork() behind allocproc().
  unfoldable pub fork_at :
      Bool → ℕ → ℕ → Bool × Processes World Space → Outcome (Option ℕ × Processes World Space)
  fork_at cow_enabled cur i (false, k) = ret (none, k)
  fork_at cow_enabled cur i (true, k) =
      copy_memory ops cow_enabled cur i (k.life cur).pid k.rest >>= λ copied.
      start_or_free cur i copied.0 (record k { rest = copied.1 })

  unfoldable pub fork_found :
      Bool → ℕ → Option ℕ → Processes World Space → Outcome (Option ℕ × Processes World Space)
  fork_found cow_enabled cur none k = ret (none, k)
  fork_found cow_enabled cur (some i) k =
      alloc_at cur i k >>= λ allocated. fork_at cow_enabled cur i allocated

  unfoldable pub fork :
      Bool → ℕ → Processes World Space → Outcome (Option ℕ × Processes World Space)
  fork cow_enabled cur k =
      fork_found cow_enabled cur (find_proc nproc 0 (λ p. is_unused p.state) k.life) k

  unfoldable pub exit : ℕ → ℕ → Processes World Space → Outcome (Processes World Space)
  exit cur status k =
      if cur == k.initproc
      then panic
      else close_user ops cur k.rest >>= λ rest.
          ret (record k { life = die cur status k; rest = rest })

  -- copyout() of the status, which follows a null page table.
  unfoldable pub copy_to :
      Option Space → ℕ → ℕ → Processes World Space → Outcome (Bool × Processes World Space)
  copy_to none addr status k = panic
  copy_to (some space) addr status k = ops.copyout space addr status k.rest.world >>= λ copied.
      ret (copied.0, record k { rest = record k.rest { world = copied.1 } })

  -- The status of child `i` goes to the address, unless that is 0.
  unfoldable pub copy_status :
      ℕ → ℕ → ℕ → Processes World Space → Outcome (Bool × Processes World Space)
  copy_status cur i addr k =
      if addr == 0
      then ret (true, k)
      else copy_to (k.rest.user cur).pagetable addr (k.life i).xstate k

  unfoldable pub reap_copied : ℕ → ℕ → Bool → Processes World Space → Outcome (Waited World Space)
  reap_copied cur i true k = freeproc cur i k >>= λ freed. ret (returns (some (k.life i).pid) freed)
  reap_copied cur i false k = ret (returns none k)

  unfoldable pub reap : ℕ → ℕ → ℕ → Processes World Space → Outcome (Waited World Space)
  reap cur i addr k = copy_status cur i addr k >>= λ copied. reap_copied cur i copied.0 copied.1

  unfoldable pub wait_found :
      ℕ → ℕ → Option ℕ → Processes World Space → Outcome (Waited World Space)
  wait_found cur addr (some i) k = reap cur i addr k
  wait_found cur addr none k =
      if not (is_some (find_proc nproc 0 (is_child cur) k.life)) || (k.life cur).killed
      then ret (returns none k)
      else ret (
          sleeps (record k {
            life =
                put k.life cur
                  (record (k.life cur) { chan = some (process cur); state = sleeping });
          }))

  unfoldable pub wait : ℕ → ℕ → Processes World Space → Outcome (Waited World Space)
  wait cur addr k = wait_found cur addr (find_proc nproc 0 (is_dead_child cur) k.life) k

-- The operations that change the lives of processes only.

unfoldable pub sleep : ℕ → ℕ → (ℕ → Life) → ℕ → Life
sleep cur chan life =
    put life cur (record (life cur) { chan = some (other chan); state = sleeping })

unfoldable pub yield : ℕ → (ℕ → Life) → ℕ → Life
yield cur life = put life cur (set_state runnable (life cur))

-- A turn of the loop of scheduler() that finds process `i` runnable; one that slept clears `chan`.
unfoldable pub dispatch : ℕ → (ℕ → Life) → ℕ → Life
dispatch i life = put life i (record (life i) { state = running; chan = none })

unfoldable pub kill_at : Life → Life
kill_at p = record p { killed = true; state = if is_sleeping p.state then runnable else p.state }

-- kill() of the first process with the pid, `false` for -1.
unfoldable pub kill : ℕ → (ℕ → Life) → Bool × (ℕ → Life)
kill pid life = elim (find_proc nproc 0 (λ p. p.pid == pid) life) [
  | none ↦ (false, life)
  | some i ↦ (true, put life i (kill_at (life i)))
]

unfoldable pub setkilled : ℕ → (ℕ → Life) → ℕ → Life
setkilled i life = put life i (record (life i) { killed = true })
