-- ===== src/Threads/Tests.antt =====
-- Project-3, user/ulthread.c: runs on small tables, and the theorems at inputs where their
-- hypotheses hold.
use cse_536_advanced_operati.Base.{
  ℕ, zero, suc, ◌≤◌, ◌≡◌, ◌≢◌, refl, inl, true, false, none, some, if◌then◌else◌, ◌==◌,
}
use cse_536_advanced_operati.Threads.State.{
  ThreadState, runnable, yielded, free, priority_first, Context, Thread, Library, is_runnable,
  is_yielded, has_no_id, set_state, find_slot, new_context, ulthread_init, ulthread_create,
  ulthread_yield, max_threads,
}
use cse_536_advanced_operati.Threads.Schedule.{
  returned, switched, first_runnable, wake_yielded, raise_priority, candidate, best_priority,
  round_fcfs, round_priority, round_robin_round, schedule_round, next_in_turn,
}
use cse_536_advanced_operati.Threads.Schedule.Choice.{round_priority_switched, round_returned}
use cse_536_advanced_operati.Threads.Schedule.Offers.{is_slot}
use cse_536_advanced_operati.Threads.Schedule.Turn.{
  InTurn, round_robin_returned, round_robin_switched,
}
use cse_536_advanced_operati.Threads.Life.{ulthread_create_lem}
use cse_536_advanced_operati.Threads.Life.Steps.{scheduling, Step, Reach, IsValid, Reach-IsValid}

abbrev blank : Context
blank = record { ra = 0; sp = 0; s = λ k. 0 }

abbrev empty_slot : Thread
empty_slot = record { tid = none; state = free; priority = 0; context = blank; time_created = 0 }

abbrev thread : ℕ → ThreadState → ℕ → Thread
thread i x p = record { tid = some i; state = x; priority = p; context = blank; time_created = 0 }

-- Thread 1 has priority 5, thread 2 priority 8; the other slots are free.
abbrev two : ThreadState → ThreadState → ℕ → Thread
two x y k = elim k [
  | zero ↦ thread 0 runnable 0
  | suc zero ↦ thread 1 x 5
  | suc (suc zero) ↦ thread 2 y 8
  | _ ↦ empty_slot
]

abbrev library : (ℕ → Thread) → ℕ → Library
library ts cur = record {
  ul_thread = ts;
  algorithm = priority_first;
  current_tid = cur;
  prev_tid = 0;
  before = 0;
}

-- The library before any call: every slot is zeroed.
abbrev fresh : Library
fresh = library (λ k. empty_slot) 0

abbrev after_two : Library
after_two = record (library (two runnable runnable) 0) { current_tid = 2 }

fcfs_returns : round_fcfs fresh ≡ returned fresh
unfolding round_fcfs candidate first_runnable wake_yielded raise_priority
fcfs_returns = refl

round_returned_example :
    (is_runnable (fresh.ul_thread 7) ≡ false) × (is_yielded (fresh.ul_thread 7) ≡ false)
round_returned_example = round_returned fresh fresh 7 (inl fcfs_returns) refl

priority_runs : round_priority (library (two runnable runnable) 0) ≡ switched after_two
unfolding round_priority candidate first_runnable best_priority raise_priority
priority_runs = refl

round_priority_switched_example :
    (is_slot after_two.current_tid ≡ true)
    × (is_runnable (after_two.ul_thread 2) ≡ true)
    × ((two runnable runnable 1).priority ≤ (two runnable runnable 2).priority)
round_priority_switched_example =
    round_priority_switched (library (two runnable runnable) 0) after_two 1 priority_runs refl
      (inl refl)

-- Thread 1 has yielded and no other thread is there.
round_robin_returned_example :
    round_robin_round (library (two yielded free) 1) ≡ returned (library (two yielded free) 1)
round_robin_returned_example = round_robin_returned (library (two yielded free) 1) idle
  where
    idle : (j : ℕ) → is_slot j ≡ true → is_runnable (two yielded free j) ≡ false
    idle zero s = cc
    idle (suc zero) s = refl
    idle (suc (suc zero)) s = refl
    idle (suc (suc (suc k))) s = refl

-- Thread 1 has yielded, and it is the turn of thread 2.
abbrev turned : Library
turned = record (library (set_state (two yielded runnable) 1 runnable) 2) { prev_tid = 1 }

turn_runs : round_robin_round (library (two yielded runnable) 1) ≡ switched turned
unfolding round_robin_round next_in_turn
turn_runs = refl

round_robin_switched_example :
    InTurn 1 max_threads 0 2 (two yielded runnable)
    × (turned.current_tid ≢ 1)
    × (turned.prev_tid ≡ 1)
round_robin_switched_example =
    round_robin_switched (library (two yielded runnable) 1) turned turn_runs

slot_found : find_slot 99 1 (two runnable free) ≡ 3
unfolding find_slot
slot_found = refl

ulthread_create_lem_example :
    (is_slot (find_slot 99 1 (two runnable free)) ≡ true)
    × (find_slot 99 1 (two runnable free) ≤ 9)
    × (has_no_id (two runnable free (find_slot 99 1 (two runnable free))) ≡ true)
    × ((ulthread_create 64 128 (λ k. k) 7 (library (two runnable free) 0)).ul_thread 2 ≡ (
        if 2 == find_slot 99 1 (two runnable free)
        then record (two runnable free (find_slot 99 1 (two runnable free))) {
          tid = some (find_slot 99 1 (two runnable free));
          state = runnable;
          priority = 7;
          context = new_context 64 128 (λ k. k);
        }
        else two runnable free 2))
ulthread_create_lem_example =
    ulthread_create_lem 64 128 (λ k. k) 7 9 2 (library (two runnable free) 0) refl refl

abbrev begun : Library
begun = ulthread_create 64 128 (λ k. k) 7 (ulthread_init priority_first fresh)

abbrev first_run : Library
first_run = record begun { current_tid = 1 }

first_switch : schedule_round begun ≡ switched first_run
unfolding schedule_round round_priority candidate first_runnable best_priority raise_priority
    ulthread_create ulthread_init find_slot
first_switch = refl

Reach-IsValid_example : IsValid scheduling (ulthread_yield first_run)
Reach-IsValid_example =
    Reach-IsValid priority_first fresh (ulthread_yield first_run) scheduling (λ j s. refl)
      (Reach.next
        (Reach.next (Reach.next Reach.here (Step.create scheduling 64 128 (λ k. k) 7 _))
          (Step.switch begun first_run first_switch))
        (Step.yield first_run))
