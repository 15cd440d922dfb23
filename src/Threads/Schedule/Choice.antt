-- ===== src/Threads/Schedule/Choice.antt =====
-- Project-3, user/ulthread.c: which thread a round of the scheduler switches to, and when the
-- scheduler returns.
use cse_536_advanced_operati.Base.{
  ℕ, ◌≤◌, ◌≡◌, sym, ap, ◌∙◌, ◌⊎◌, inl, inr, true, false, none, some, arith, Bool-cases,
  Option-cases,
}
use cse_536_advanced_operati.Threads.State.{Thread, Library, is_runnable, is_yielded}
use cse_536_advanced_operati.Threads.Schedule.{
  returned, switched, first_runnable, raise_age, candidate, best_priority, switch_to, round_fcfs,
  round_priority,
}
use cse_536_advanced_operati.Threads.Schedule.Loops.{first_runnable-none}
use cse_536_advanced_operati.Threads.Schedule.Raise.{raise_priority_lem, raise_age_same}
use cse_536_advanced_operati.Threads.Schedule.Offers.{
  is_slot, Contends, candidate-Offers, candidate-some,
}

-- A round of PRIORITY, by what its first part offers.
pub priority_none :
    (l : Library)
    → (candidate l).1 ≡ none
    → round_priority l ≡ returned (record l { ul_thread = (candidate l).0 })
unfolding round_priority
priority_none l e = rw (e, round_priority)

pub priority_some :
    (l : Library) (n : ℕ)
    → (candidate l).1 ≡ some n
    → round_priority l ≡ switch_to l (candidate l).0 (best_priority l.before (candidate l).0 n)
unfolding round_priority
priority_some l n e = rw (e, round_priority)

-- The slot that a switch goes to, and its thread there.
switch_to_lem :
    (l l' : Library) (ts : ℕ → Thread) (k : ℕ)
    → switch_to l ts k ≡ switched l'
    → (l'.current_tid ≡ k)
      × (l'.prev_tid ≡ l.current_tid)
      × (is_runnable (ts k) ≡ true → is_runnable (l'.ul_thread k) ≡ true)
unfolding switch_to
switch_to_lem l l' ts k h = ground arith

-- What best_priority() gives for a runnable slot.
pub best_facts :
    (before n : ℕ) (ts : ℕ → Thread)
    → (is_slot n ≡ true) × (is_runnable (ts n) ≡ true)
    → let k = best_priority before ts n in
      ((is_slot k ≡ true) × (is_runnable (ts k) ≡ true))
      × ((j : ℕ) → is_slot j ≡ true → is_runnable (ts j) ≡ true → (ts j).priority ≤ (ts k).priority)
unfolding best_priority
best_facts before n ts b =
    let r = raise_priority_lem before 99 1 n ts in
    rw (r.found, best_priority) (either r.slot r.place, r.highest)
  where
    either :
        (m : ℕ)
        → (m ≡ n) ⊎ (is_slot m ≡ true) × (is_runnable (ts m) ≡ true)
        → (is_slot m ≡ true) × (is_runnable (ts m) ≡ true)
    either m (inl p) = rw p b
    either m (inr q) = q

pub returned_switched : (l l' : Library) → returned l ≡ switched l' → ⊥
returned_switched l l' h = cc

-- PRIORITY switches to a thread of the table that is runnable at the switch, and no thread that it
-- chooses from has a higher priority.
pub round_priority_switched :
    (l l' : Library) (j : ℕ)
    → round_priority l ≡ switched l'
    → is_slot j ≡ true
    → Contends l j
    → (is_slot l'.current_tid ≡ true)
      × (is_runnable (l'.ul_thread l'.current_tid) ≡ true)
      × ((l.ul_thread j).priority ≤ (l.ul_thread l'.current_tid).priority)
round_priority_switched l l' j h s c = elim (Option-cases (candidate l).1) [
  | inl e ↦ absurd (returned_switched _ l' (sym (priority_none l e) ∙ h))
  | inr (n, e) ↦
      let o = candidate-Offers l in
      let ts = (candidate l).0 in
      let k = best_priority l.before ts n in
      let (b, top) = best_facts l.before n ts (o.place n e) in
      let (cur, prev, run) = switch_to_lem l l' ts k (sym (priority_some l n e) ∙ h) in
      rw cur (b.0, run b.1, omega (arith, top j s (o.ready j s c), o.priorities j, o.priorities k))
]

pub fcfs_none :
    (l : Library)
    → (candidate l).1 ≡ none
    → round_fcfs l ≡ returned (record l { ul_thread = (candidate l).0 })
unfolding round_fcfs
fcfs_none l e = rw (e, round_fcfs)

pub fcfs_some :
    (l : Library) (n : ℕ)
    → (candidate l).1 ≡ some n
    → round_fcfs l ≡ switch_to l (candidate l).0 (raise_age 99 1 (candidate l).0 n)
unfolding round_fcfs
fcfs_some l n e = rw (e, round_fcfs)

-- While no thread is older than another, as the library leaves them, FCFS switches to the first
-- runnable slot where there is one, whatever the order in which the threads were created.
round_fcfs_first :
    (l : Library) (k : ℕ)
    → ((i j : ℕ) → (l.ul_thread i).time_created ≡ (l.ul_thread j).time_created)
    → first_runnable 99 1 l.ul_thread ≡ some k
    → round_fcfs l ≡ switch_to l l.ul_thread k
round_fcfs_first l k same e =
    let c = candidate-some l k e in
    let stays = raise_age_same 99 1 k l.ul_thread (λ j. omega (arith, same k j)) in
    fcfs_some l k (ap (λ w. w.1) c)
    ∙ ap (λ w. switch_to l w.0 (raise_age 99 1 w.0 k)) c
    ∙ ap (λ a. switch_to l l.ul_thread a) stays

candidate-none :
    (l : Library) (j : ℕ)
    → (candidate l).1 ≡ none
    → is_slot j ≡ true
    → (is_runnable (l.ul_thread j) ≡ false) × (is_yielded (l.ul_thread j) ≡ false)
candidate-none l j e s = elim (Option-cases (first_runnable 99 1 l.ul_thread)) [
  | inl idle ↦ (
    first_runnable-none 99 1 j l.ul_thread idle s,
    elim (Bool-cases (is_yielded (l.ul_thread j))) [
      | inl y ↦ absurd ((candidate-Offers l).nobody j e s (inr (y, idle)))
      | inr n ↦ n
    ],
  )
  | inr (k, f) ↦ absurd (some_none k (sym (offered k f) ∙ e))
]
  where
    some_none : (k : ℕ) → some k ≡ none → ⊥
    some_none k h = cc

    offered : (k : ℕ) → first_runnable 99 1 l.ul_thread ≡ some k → (candidate l).1 ≡ some k
    offered k f = ap (λ w. w.1) (candidate-some l k f)

-- A round of FCFS or of PRIORITY returns only where no thread is runnable and none has yielded.
pub round_returned :
    (l l' : Library) (j : ℕ)
    → (round_fcfs l ≡ returned l') ⊎ (round_priority l ≡ returned l')
    → is_slot j ≡ true
    → (is_runnable (l.ul_thread j) ≡ false) × (is_yielded (l.ul_thread j) ≡ false)
unfolding switch_to
round_returned l l' j h s = elim (Option-cases (candidate l).1) [
  | inl e ↦ candidate-none l j e s
  | inr (n, e) ↦ absurd (switches n e h)
]
  where
    switches :
        (n : ℕ)
        → (candidate l).1 ≡ some n
        → (round_fcfs l ≡ returned l') ⊎ (round_priority l ≡ returned l')
        → ⊥
    switches n e (inl f) = returned_switched l' _ (sym f ∙ fcfs_some l n e)
    switches n e (inr p) = returned_switched l' _ (sym p ∙ priority_some l n e)
