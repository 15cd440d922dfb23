-- ===== src/Threads/Life.antt =====
-- Project-3, user/ulthread.c: the threads from creation to destruction. The program is a sequence of
-- rounds of the scheduler and of calls by the thread that it switched to.
pub mod Steps
use cse_536_advanced_operati.Base.{
  ℕ, zero, suc, ◌+◌, ◌%◌, ◌≤◌, ◌<◌, ◌≡◌, ◌≢◌, refl, sym, ap, ◌∙◌, subst, ◌⊎◌, inl, inr, Bool, true,
  false, not, ◌&&◌, Option, none, some, ltb, leb, ◌==◌, if◌then◌else◌, arith, Bool-cases,
  Option-cases, ℕ_discrete,
}
use cse_536_advanced_operati.Threads.State.{
  ThreadState, runnable, yielded, free, Thread, Library, is_runnable, is_yielded, has_no_id,
  set_state, find_slot, new_context, ulthread_init, ulthread_create, ulthread_yield,
  ulthread_destroy,
}
use cse_536_advanced_operati.Threads.Schedule.Loops.{in_range}
use cse_536_advanced_operati.Threads.Schedule.Offers.{is_slot}

-- What the search for a slot finds: the first of the slots without an id, or 0.
find_slot_lem :
    (rounds i j : ℕ) (ts : ℕ → Thread)
    → 1 ≤ i
    → in_range rounds i j ≡ true
    → has_no_id (ts j) ≡ true
    → (in_range rounds i (find_slot rounds i ts) ≡ true)
      × (has_no_id (ts (find_slot rounds i ts)) ≡ true)
      × (find_slot rounds i ts ≤ j)
unfolding find_slot
find_slot_lem zero i j ts p r n = absurd (ground arith)
find_slot_lem (suc rounds) i j ts p r n = elim (Bool-cases (has_no_id (ts i))) [
  | inl y ↦ rw y (ground arith, y, ground arith)
  | inr z ↦ elim (ℕ_discrete i j) [
    | yes e ↦ absurd (clash z (ap (λ c. has_no_id (ts c)) e ∙ n))
    | no d ↦
        let (g, y, le) = find_slot_lem rounds (i + 1) j ts (omega arith) (ground arith) n in
        rw z (ground arith, y, le)
  ]
]
  where
    clash : {b : Bool} → b ≡ false → b ≡ true → ⊥
    clash f t = cc

-- With a slot that has no id, a new thread takes the first such slot: it is runnable there, has the
-- slot for its id, and starts at `start` with the stack and the arguments given. No other slot
-- changes.
pub ulthread_create_lem :
    (start stack : ℕ) (args : ℕ → ℕ) (priority j m : ℕ) (l : Library)
    → is_slot j ≡ true
    → has_no_id (l.ul_thread j) ≡ true
    → let k = find_slot 99 1 l.ul_thread in
      let l' = ulthread_create start stack args priority l in
      (is_slot k ≡ true)
      × (k ≤ j)
      × (has_no_id (l.ul_thread k) ≡ true)
      × (l'.ul_thread m ≡ (
          if m == k
          then record (l.ul_thread k) {
            tid = some k;
            state = runnable;
            priority = priority;
            context = new_context start stack args;
          }
          else l.ul_thread m))
unfolding ulthread_create
ulthread_create_lem start stack args priority j m l s n =
    let (g, y, le) = find_slot_lem 99 1 j l.ul_thread (omega arith) s n in (g, le, y, refl)

find_slot_full :
    (rounds i : ℕ) (ts : ℕ → Thread)
    → ((j : ℕ) → in_range rounds i j ≡ true → has_no_id (ts j) ≡ false)
    → find_slot rounds i ts ≡ 0
unfolding find_slot
find_slot_full zero i ts h = refl
find_slot_full (suc rounds) i ts h =
    rw (h i (ground arith)) (find_slot_full rounds (i + 1) ts (λ j r. h j (ground arith)))

-- With no slot left a new thread is written over the scheduler's own slot 0, context included, and
-- no other slot changes.
ulthread_create_full :
    (start stack : ℕ) (args : ℕ → ℕ) (priority m : ℕ) (l : Library)
    → ((j : ℕ) → is_slot j ≡ true → has_no_id (l.ul_thread j) ≡ false)
    → let l' = ulthread_create start stack args priority l in
      l'.ul_thread m ≡ (
        if m == 0
        then record (l.ul_thread 0) {
          tid = some 0;
          state = runnable;
          priority = priority;
          context = new_context start stack args;
        }
        else l.ul_thread m)
unfolding ulthread_create
ulthread_create_full start stack args priority m l h = rw (find_slot_full 99 1 l.ul_thread h)
