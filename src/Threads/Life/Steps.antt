-- ===== src/Threads/Life/Steps.antt =====
-- Project-3, user/ulthread.c: runs of the library as sequences of steps, and what holds throughout.
use cse_536_advanced_operati.Base.{
  ℕ, ◌≡◌, refl, sym, ◌∙◌, subst, inl, inr, true, false, none, some, if◌then◌else◌, arith,
  Option-cases, ℕ_discrete,
}
use cse_536_advanced_operati.Threads.State.{
  yielded, Algorithm, round_robin, priority_first, fcfs, Thread, Library, is_runnable, is_free,
  max_threads, set_state, find_slot, ulthread_init, ulthread_create, ulthread_yield,
  ulthread_destroy,
}
use cse_536_advanced_operati.Threads.Schedule.{
  switched, switch_to, candidate, best_priority, raise_age, round_fcfs, round_priority,
  round_robin_round, schedule_round, by_algorithm, next_in_turn,
}
use cse_536_advanced_operati.Threads.Schedule.Raise.{raise_age_place}
use cse_536_advanced_operati.Threads.Schedule.Choice.{
  best_facts, fcfs_some, fcfs_none, priority_some, priority_none, returned_switched,
}
use cse_536_advanced_operati.Threads.Schedule.Offers.{is_slot, candidate-Offers}
use cse_536_advanced_operati.Threads.Schedule.Turn.{none_switch, next_in_turn-some, turn_switch}

-- Who runs: the scheduler, or the thread `current_tid`.
pub data Phase : Type 0 where
  scheduling running : Phase

pub data Step : Phase → Library → Phase → Library → Type 0 where
  switch : (l l' : Library) → schedule_round l ≡ switched l' → Step scheduling l running l'
  create :
      (p : Phase) (start stack : ℕ) (args : ℕ → ℕ) (priority : ℕ) (l : Library)
      → Step p l p (ulthread_create start stack args priority l)
  yield : (l : Library) → Step running l scheduling (ulthread_yield l)
  destroy : (l : Library) → Step running l scheduling (ulthread_destroy l).1

-- A slot that is free has no id, and any other has its own number for an id.
abbrev pub SlotOk : (ℕ → Thread) → ℕ → Type 0
SlotOk ts j = (ts j).tid ≡ (if is_free (ts j) then none else some j)

-- Every slot is as it should be, and a running thread is one of the table that is not free.
pub record IsValid (p : Phase) (l : Library) : Type 0 where
  pub slots : (j : ℕ) → is_slot j ≡ true → SlotOk l.ul_thread j
  pub current :
      p ≡ running → (is_slot l.current_tid ≡ true) × (is_free (l.ul_thread l.current_tid) ≡ false)

-- What a switch leaves of a slot, and where it goes.
record Switches (l l' : Library) : Type 0 where
  kept :
      (j : ℕ)
      → ((l'.ul_thread j).tid ≡ (l.ul_thread j).tid)
        × (is_free (l'.ul_thread j) ≡ is_free (l.ul_thread j))
  place : is_slot l'.current_tid ≡ true
  ready : is_runnable (l'.ul_thread l'.current_tid) ≡ true

switch_to_keeps :
    (l l' : Library) (ts : ℕ → Thread) (k j : ℕ)
    → switch_to l ts k ≡ switched l'
    → ((l'.ul_thread j).tid ≡ (ts j).tid)
      × (is_free (l'.ul_thread j) ≡ is_free (ts j))
      × (l'.current_tid ≡ k)
      × (is_runnable (ts j) ≡ true → is_runnable (l'.ul_thread j) ≡ true)
unfolding switch_to
switch_to_keeps l l' ts k j h = elim (ℕ_discrete j l.current_tid) [
  | yes e ↦ rw e (ground arith)
  | no n ↦ ground arith
]

switches :
    (l l' : Library) (ts : ℕ → Thread) (k : ℕ)
    → ((j : ℕ) → ((ts j).tid ≡ (l.ul_thread j).tid) × (is_free (ts j) ≡ is_free (l.ul_thread j)))
    → (is_slot k ≡ true) × (is_runnable (ts k) ≡ true)
    → switch_to l ts k ≡ switched l'
    → Switches l l'
switches l l' ts k same b h = record {
  kept = λ j. let (t, f, c, r) = switch_to_keeps l l' ts k j h in (t ∙ (same j).0, f ∙ (same j).1);
  place = rw (switch_to_keeps l l' ts k k h).2 b.0;
  ready = let (t, f, c, r) = switch_to_keeps l l' ts k k h in rw c (r b.1);
}

priority-Switches : (l l' : Library) → round_priority l ≡ switched l' → Switches l l'
priority-Switches l l' h = elim (Option-cases (candidate l).1) [
  | inl e ↦ absurd (returned_switched _ l' (sym (priority_none l e) ∙ h))
  | inr (n, e) ↦
      let o = candidate-Offers l in
      switches l l' (candidate l).0 (best_priority l.before (candidate l).0 n) o.kept
        (best_facts l.before n (candidate l).0 (o.place n e)).0 (sym (priority_some l n e) ∙ h)
]

age_facts :
    (n : ℕ) (ts : ℕ → Thread)
    → (is_slot n ≡ true) × (is_runnable (ts n) ≡ true)
    → let k = raise_age 99 1 ts n in (is_slot k ≡ true) × (is_runnable (ts k) ≡ true)
age_facts n ts b = elim (raise_age_place 99 1 n ts) [ inl e ↦ rw e b | inr q ↦ q ]

fcfs-Switches : (l l' : Library) → round_fcfs l ≡ switched l' → Switches l l'
fcfs-Switches l l' h = elim (Option-cases (candidate l).1) [
  | inl e ↦ absurd (returned_switched _ l' (sym (fcfs_none l e) ∙ h))
  | inr (n, e) ↦
      let o = candidate-Offers l in
      switches l l' (candidate l).0 (raise_age 99 1 (candidate l).0 n) o.kept
        (age_facts n (candidate l).0 (o.place n e)) (sym (fcfs_some l n e) ∙ h)
]

turn-Switches : (l l' : Library) → round_robin_round l ≡ switched l' → Switches l l'
turn-Switches l l' h = elim (Option-cases (next_in_turn l.current_tid max_threads 0 l.ul_thread)) [
  | inl e ↦ absurd (none_switch l l' e h)
  | inr (k, e) ↦
      let t = next_in_turn-some l.current_tid max_threads 0 k l.ul_thread e in
      switches l l' l.ul_thread k (λ j. (refl, refl)) (t.inside, t.ready) (turn_switch l l' k e h)
]

by_algorithm-Switches :
    (a : Algorithm) (l l' : Library) → by_algorithm a l ≡ switched l' → Switches l l'
unfolding by_algorithm
by_algorithm-Switches round_robin l l' h = turn-Switches l l' h
by_algorithm-Switches priority_first l l' h = priority-Switches l l' h
by_algorithm-Switches fcfs l l' h = fcfs-Switches l l' h

schedule_round-Switches : (l l' : Library) → schedule_round l ≡ switched l' → Switches l l'
unfolding schedule_round
schedule_round-Switches l l' h = by_algorithm-Switches l.algorithm l l' h

SlotOk-kept :
    (j : ℕ) (ts us : ℕ → Thread)
    → (us j).tid ≡ (ts j).tid
    → is_free (us j) ≡ is_free (ts j)
    → SlotOk ts j
    → SlotOk us j
SlotOk-kept j ts us t f ok = rw (t, f) ok

create_slots :
    (start stack : ℕ) (args : ℕ → ℕ) (priority j : ℕ) (l : Library)
    → SlotOk l.ul_thread j
    → SlotOk (ulthread_create start stack args priority l).ul_thread j
      × (is_free (l.ul_thread j) ≡ false
          → is_free ((ulthread_create start stack args priority l).ul_thread j) ≡ false)
unfolding ulthread_create
create_slots start stack args priority j l ok = elim (ℕ_discrete j (find_slot 99 1 l.ul_thread)) [
  | yes e ↦ rw (sym e) (ground arith)
  | no n ↦ ground arith
]

create_current :
    (start stack : ℕ) (args : ℕ → ℕ) (priority : ℕ) (l : Library)
    → is_slot l.current_tid ≡ true
    → is_free ((ulthread_create start stack args priority l).ul_thread l.current_tid) ≡ false
    → let l' = ulthread_create start stack args priority l in
      (is_slot l'.current_tid ≡ true) × (is_free (l'.ul_thread l'.current_tid) ≡ false)
unfolding ulthread_create
create_current start stack args priority l i f = (i, f)

runnable_not_free : (t : Thread) → is_runnable t ≡ true → is_free t ≡ false
runnable_not_free t h = ground arith

yield_slots :
    (j : ℕ) (l : Library)
    → SlotOk l.ul_thread j
    → is_free (l.ul_thread l.current_tid) ≡ false
    → SlotOk (ulthread_yield l).ul_thread j
unfolding ulthread_yield
yield_slots j l ok f = elim (ℕ_discrete j l.current_tid) [
  | yes e ↦ let ok' = subst (SlotOk l.ul_thread) e ok in rw e (yielded_slot l.current_tid l ok' f)
  | no n ↦ ground arith
]
  where
    yielded_slot :
        (k : ℕ) (l : Library)
        → SlotOk l.ul_thread k
        → is_free (l.ul_thread k) ≡ false
        → SlotOk (set_state l.ul_thread k yielded) k
    yielded_slot k l o g = ground arith

destroy_slots :
    (j : ℕ) (l : Library) → SlotOk l.ul_thread j → SlotOk (ulthread_destroy l).1.ul_thread j
unfolding ulthread_destroy
destroy_slots j l ok = elim (ℕ_discrete j l.current_tid) [
  | yes e ↦ let ok' = subst (SlotOk l.ul_thread) e ok in rw e (ground arith)
  | no n ↦ ground arith
]

init_slots :
    (a : Algorithm) (j : ℕ) (l : Library)
    → is_free (l.ul_thread j) ≡ true
    → is_slot j ≡ true
    → SlotOk (ulthread_init a l).ul_thread j
unfolding ulthread_init
init_slots a j l f i = ground arith

not_running : scheduling ≡ running → ⊥
not_running e = cc

-- Every step keeps every slot as it should be, and a thread that is switched to is one of the table
-- that is not free.
pub Step-IsValid : {p q : Phase} {l l' : Library} → Step p l q l' → IsValid p l → IsValid q l'
Step-IsValid (switch l l' h) v =
    let s = schedule_round-Switches l l' h in
    record {
      slots = λ j i. SlotOk-kept j l.ul_thread l'.ul_thread (s.kept j).0 (s.kept j).1 (v.slots j i);
      current = λ e. (s.place, runnable_not_free (l'.ul_thread l'.current_tid) s.ready);
    }
Step-IsValid (create p start stack args priority l) v = record {
  slots = λ j i. (create_slots start stack args priority j l (v.slots j i)).0;
  current = λ e.
      let (i, f) = v.current e in
      create_current start stack args priority l i
        ((create_slots start stack args priority l.current_tid l (v.slots l.current_tid i)).1 f);
}
Step-IsValid (yield l) v = record {
  slots = λ j i. yield_slots j l (v.slots j i) (v.current refl).1;
  current = λ e. absurd (not_running e);
}
Step-IsValid (destroy l) v = record {
  slots = λ j i. destroy_slots j l (v.slots j i);
  current = λ e. absurd (not_running e);
}

-- Every run of the library.
pub data Reach (p : Phase) (l : Library) : Phase → Library → Type 0 where
  here : Reach p l p l
  next : {q r : Phase} {m n : Library} → Reach p l q m → Step q m r n → Reach p l r n

-- From ulthread_init() on a table whose threads are all free, every run keeps every slot as it
-- should be: a free slot has no id, any other has its own number for its id; and whenever a thread
-- runs, it is one of the slots 1 to 99 and not free.
pub Reach-IsValid :
    (a : Algorithm) (l m : Library) (q : Phase)
    → ((j : ℕ) → is_slot j ≡ true → is_free (l.ul_thread j) ≡ true)
    → Reach scheduling (ulthread_init a l) q m
    → IsValid q m
Reach-IsValid a l _ _ h here = record {
  slots = λ j i. init_slots a j l (h j i) i;
  current = λ e. absurd (not_running e);
}
Reach-IsValid a l _ _ h (next {m = m} r s) = Step-IsValid s (Reach-IsValid a l m _ h r)
