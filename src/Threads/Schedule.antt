-- ===== src/Threads/Schedule.antt =====
-- Project-3, user/ulthread.c: one round of the loop of ulthread_schedule(), for each of the three
-- algorithms. The round ends where the loop returns, or with the switch to the thread chosen.
pub mod Loops
pub mod Raise
pub mod Offers
pub mod Choice
pub mod Turn
use cse_536_advanced_operati.Base.{
  ℕ, zero, suc, ◌+◌, ◌%◌, Bool, true, false, not, ◌&&◌, Option, none, some, ltb, ◌==◌,
  if◌then◌else◌,
}
use cse_536_advanced_operati.Threads.State.{
  ThreadState, runnable, yielded, free, Algorithm, round_robin, priority_first, fcfs, Thread,
  Library, is_runnable, is_yielded, set_state, max_threads,
}

-- What a round comes to: the loop is left, or thread `current_tid` is switched to.
pub data Round : Type 0 where
  returned : Library → Round
  switched : Library → Round

-- The first runnable slot of `rounds` slots from `i` on; `none` is -1.
unfoldable pub first_runnable : ℕ → ℕ → (ℕ → Thread) → Option ℕ
first_runnable zero i ts = none
first_runnable (suc rounds) i ts =
    let rest = first_runnable rounds (i + 1) ts in if is_runnable (ts i) then some i else rest

-- Every yielded thread is made runnable; the result is the last of them.
unfoldable pub wake_yielded : ℕ → ℕ → (ℕ → Thread) → Option ℕ → (ℕ → Thread) × Option ℕ
wake_yielded zero i ts next = (ts, next)
wake_yielded (suc rounds) i ts next =
    wake_yielded rounds (i + 1) (if is_yielded (ts i) then set_state ts i runnable else ts)
      (if is_yielded (ts i) then some i else next)

-- The priority of a slot that may be -1.
unfoldable pub priority_at : ℕ → (ℕ → Thread) → Option ℕ → ℕ
priority_at before ts none = before
priority_at before ts (some n) = (ts n).priority

-- The loop that moves to a runnable thread of higher priority.
unfoldable pub raise_priority : ℕ → ℕ → ℕ → (ℕ → Thread) → Option ℕ → Option ℕ
unfolding priority_at
raise_priority before zero i ts next = next
raise_priority before (suc rounds) i ts next = raise_priority before rounds (i + 1) ts (
    if ltb (priority_at before ts next) (ts i).priority && is_runnable (ts i) then some i else next)

-- The loop that moves to a runnable thread that was created earlier.
unfoldable pub raise_age : ℕ → ℕ → (ℕ → Thread) → ℕ → ℕ
raise_age zero i ts next = next
raise_age (suc rounds) i ts next =
    raise_age rounds (i + 1) ts
      (if ltb (ts i).time_created (ts next).time_created && is_runnable (ts i) then i else next)

-- The first part of a round, which FCFS and PRIORITY share: a runnable thread if there is one, or
-- else the best of those that yielded, made runnable.
unfoldable pub candidate : Library → (ℕ → Thread) × Option ℕ
candidate l = elim (first_runnable 99 1 l.ul_thread) [
  | some k ↦ (l.ul_thread, some k)
  | none ↦ let w = wake_yielded 99 1 l.ul_thread none in (w.0, raise_priority l.before 99 1 w.0 w.1)
]

-- The bookkeeping before the switch to thread `next`.
unfoldable pub switch_to : Library → (ℕ → Thread) → ℕ → Round
switch_to l ts next = switched (record l {
  ul_thread =
      if not (l.current_tid == 0) && is_yielded (ts l.current_tid)
      then set_state ts l.current_tid runnable
      else ts;
  prev_tid = l.current_tid;
  current_tid = next;
})

unfoldable pub round_fcfs : Library → Round
unfolding switch_to
round_fcfs l =
    let (ts, next) = candidate l in
    elim next [
      | none ↦ returned (record l { ul_thread = ts })
      | some n ↦ switch_to l ts (raise_age 99 1 ts n)
    ]

-- With a thread at hand the loop only moves from one slot to another.
unfoldable pub best_priority : ℕ → (ℕ → Thread) → ℕ → ℕ
best_priority before ts n = elim (raise_priority before 99 1 ts (some n)) [ none ↦ n | some k ↦ k ]

unfoldable pub round_priority : Library → Round
unfolding switch_to
round_priority l =
    let (ts, next) = candidate l in
    elim next [
      | none ↦ returned (record l { ul_thread = ts })
      | some n ↦ switch_to l ts (best_priority l.before ts n)
    ]

-- The search from the current thread on, round the table and over slot 0.
unfoldable pub next_in_turn : ℕ → ℕ → ℕ → (ℕ → Thread) → Option ℕ
next_in_turn current zero i ts = none
next_in_turn current (suc rounds) i ts =
    let element = (current + i) % max_threads in
    let rest = next_in_turn current rounds (i + 1) ts in
    if not (element == 0) && is_runnable (ts element) then some element else rest

unfoldable pub round_robin_round : Library → Round
unfolding switch_to
round_robin_round l = elim (next_in_turn l.current_tid max_threads 0 l.ul_thread) [
  | none ↦ returned l
  | some element ↦
      if element == l.current_tid
      then returned (record l { prev_tid = l.current_tid; current_tid = element })
      else switch_to l l.ul_thread element
]

unfoldable pub by_algorithm : Algorithm → Library → Round
by_algorithm fcfs l = round_fcfs l
by_algorithm round_robin l = round_robin_round l
by_algorithm priority_first l = round_priority l

unfoldable pub schedule_round : Library → Round
unfolding by_algorithm
schedule_round l = by_algorithm l.algorithm l
