-- ===== src/Threads/Schedule/Offers.antt =====
-- Project-3, user/ulthread.c: the thread that the first part of a round of the scheduler offers.
use cse_536_advanced_operati.Base.{
  ℕ, ◌≡◌, refl, sym, ◌∙◌, ◌⊎◌, inl, inr, Bool, true, false, Option, none, some, arith, Option-cases,
}
use cse_536_advanced_operati.Threads.State.{Thread, Library, is_runnable, is_yielded, is_free}
use cse_536_advanced_operati.Threads.Schedule.{
  first_runnable, wake_yielded, raise_priority, candidate,
}
use cse_536_advanced_operati.Threads.Schedule.Loops.{
  in_range, first_runnable-none, first_runnable-some, woken, wake_yielded_threads,
  wake_yielded_next, wake_yielded-none,
}
use cse_536_advanced_operati.Threads.Schedule.Raise.{raise_priority_lem, raise_priority_idle}

-- The slots 1 to 99, those of the threads.
abbrev pub is_slot : ℕ → Bool
is_slot j = in_range 99 1 j

-- A thread that a round of FCFS or PRIORITY chooses from: a runnable one, or a yielded one where
-- none is runnable.
abbrev pub Contends : Library → ℕ → Type 0
Contends l j =
    (is_runnable (l.ul_thread j) ≡ true)
    ⊎ (is_yielded (l.ul_thread j) ≡ true) × (first_runnable 99 1 l.ul_thread ≡ none)

-- What the first part of a round hands to the second.
pub record Offers (l : Library) (c : (ℕ → Thread) × Option ℕ) : Type 0 where
  pub priorities : (j : ℕ) → (c.0 j).priority ≡ (l.ul_thread j).priority
  pub ages : (j : ℕ) → (c.0 j).time_created ≡ (l.ul_thread j).time_created
  pub kept :
      (j : ℕ) → ((c.0 j).tid ≡ (l.ul_thread j).tid) × (is_free (c.0 j) ≡ is_free (l.ul_thread j))
  pub ready : (j : ℕ) → is_slot j ≡ true → Contends l j → is_runnable (c.0 j) ≡ true
  pub place : (k : ℕ) → c.1 ≡ some k → (is_slot k ≡ true) × (is_runnable (c.0 k) ≡ true)
  pub nobody : (j : ℕ) → c.1 ≡ none → is_slot j ≡ true → Contends l j → ⊥

Offers-runnable :
    (l : Library) (k : ℕ)
    → first_runnable 99 1 l.ul_thread ≡ some k
    → Offers l (l.ul_thread, some k)
Offers-runnable l k e = record {
  priorities = λ j. refl;
  ages = λ j. refl;
  kept = λ j. (refl, refl);
  ready = λ j s. elim [ inl r ↦ r | inr (y, n) ↦ absurd (some_none (sym e ∙ n)) ];
  place = λ i h. first_runnable-some 99 1 i l.ul_thread (e ∙ h);
  nobody = λ j h. absurd (some_none h);
}
  where
    some_none : some k ≡ none → ⊥
    some_none h = cc

-- The same where every runnable thread is one that was woken.
module _ (l : Library) (idle : first_runnable 99 1 l.ul_thread ≡ none) where
  table : ℕ → Thread
  table = (wake_yielded 99 1 l.ul_thread none).0

  table_lem : (j : ℕ) → table j ≡ woken 99 1 l.ul_thread j
  unfolding table
  table_lem j = wake_yielded_threads 99 1 j l.ul_thread none

  idle_at : (j : ℕ) → is_slot j ≡ true → is_runnable (l.ul_thread j) ≡ false
  idle_at j s = first_runnable-none 99 1 j l.ul_thread idle s

  table-priority :
      (j : ℕ)
      → ((table j).priority ≡ (l.ul_thread j).priority)
        × ((table j).time_created ≡ (l.ul_thread j).time_created)
  table-priority j = rw (table_lem j) (ground arith)

  table-kept :
      (j : ℕ)
      → ((table j).tid ≡ (l.ul_thread j).tid) × (is_free (table j) ≡ is_free (l.ul_thread j))
  table-kept j = rw (table_lem j) (ground arith)

  table-ready : (j : ℕ) → is_slot j ≡ true → Contends l j → is_runnable (table j) ≡ true
  table-ready j s c = let no_run = idle_at j s in rw (table_lem j) (ground arith)

  start :
      (n : ℕ)
      → (none ≡ some n) ⊎ (is_slot n ≡ true) × (is_yielded (l.ul_thread n) ≡ true)
      → (is_slot n ≡ true) × (is_runnable (table n) ≡ true)
  start n (inl h) = absurd (cc)
  start n (inr (s, y)) = (s, table-ready n s (inr (y, idle)))

  landed :
      (k m n : ℕ)
      → m ≡ k
      → (is_slot n ≡ true) × (is_runnable (table n) ≡ true)
      → (m ≡ n) ⊎ (is_slot m ≡ true) × (is_runnable (table m) ≡ true)
      → (is_slot k ≡ true) × (is_runnable (table k) ≡ true)
  landed k m n e b (inl p) = rw (sym e ∙ p) b
  landed k m n e b (inr q) = rw (sym e) q

  some_eq : (a b : ℕ) → some a ≡ some b → a ≡ b
  some_eq a b h = cc

  Offers-woken :
      (o : Option ℕ)
      → (wake_yielded 99 1 l.ul_thread none).1 ≡ o
      → Offers l (table, raise_priority l.before 99 1 table o)
  Offers-woken none e =
      let still : raise_priority l.before 99 1 table none ≡ none =
        raise_priority_idle l.before 99 1 table (λ j s.
          let no_run = idle_at j s in
          let no_yield = wake_yielded-none 99 1 j l.ul_thread none e s in
          rw (table_lem j) (ground arith)) in
      rw still (record {
        priorities = λ j. (table-priority j).0;
        ages = λ j. (table-priority j).1;
        kept = table-kept;
        ready = table-ready;
        place = λ k h. absurd (cc);
        nobody = λ j h s c.
            let no_run = idle_at j s in
            let no_yield = wake_yielded-none 99 1 j l.ul_thread none e s in ground arith;
      })
  Offers-woken (some n) e =
      let r = raise_priority_lem l.before 99 1 n table in
      let begun = start n (wake_yielded_next 99 1 n l.ul_thread none e) in
      rw r.found (record {
        priorities = λ j. (table-priority j).0;
        ages = λ j. (table-priority j).1;
        kept = table-kept;
        ready = table-ready;
        place = λ k h. landed k r.slot n (some_eq r.slot k h) begun r.place;
        nobody = λ j h. absurd (cc);
      })

pub candidate-Offers : (l : Library) → Offers l (candidate l)
unfolding candidate table
candidate-Offers l = elim (Option-cases (first_runnable 99 1 l.ul_thread)) [
  | inl e ↦ rw (e, candidate) (Offers-woken l e (wake_yielded 99 1 l.ul_thread none).1 refl)
  | inr (k, e) ↦ rw (e, candidate) (Offers-runnable l k e)
]

pub candidate-some :
    (l : Library) (k : ℕ)
    → first_runnable 99 1 l.ul_thread ≡ some k
    → candidate l ≡ (l.ul_thread, some k)
unfolding candidate
candidate-some l k e = rw (e, candidate)
