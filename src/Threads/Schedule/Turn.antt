-- ===== src/Threads/Schedule/Turn.antt =====
-- Project-3, user/ulthread.c: the round of ROUNDROBIN, a search round the table.
use cse_536_advanced_operati.Base.{
  ℕ, zero, suc, ◌+◌, ◌%◌, ◌≤◌, ◌<◌, ◌≡◌, ◌≢◌, refl, sym, subst, ◌∙◌, inl, inr, true, false, not,
  ◌&&◌, none, some, ◌==◌, arith, Bool-cases, Option-cases, ℕ_discrete,
}
use cse_536_advanced_operati.Threads.State.{Thread, Library, is_runnable, max_threads}
use cse_536_advanced_operati.Threads.Schedule.{
  returned, switched, switch_to, round_robin_round, next_in_turn,
}
use cse_536_advanced_operati.Threads.Schedule.Offers.{is_slot}

-- The search of ROUNDROBIN finds nothing where no thread is runnable.
next_in_turn-none :
    (current rounds i : ℕ) (ts : ℕ → Thread)
    → ((j : ℕ) → is_slot j ≡ true → is_runnable (ts j) ≡ false)
    → next_in_turn current rounds i ts ≡ none
unfolding next_in_turn
next_in_turn-none current zero i ts h = refl
next_in_turn-none current (suc rounds) i ts h =
    let element = (current + i) % max_threads in
    let off : (not (element == 0) && is_runnable (ts element)) ≡ false =
      skip element (omega arith) in
    rw off (next_in_turn-none current rounds (i + 1) ts h)
  where
    skip : (e : ℕ) → e < 100 → (not (e == 0) && is_runnable (ts e)) ≡ false
    skip e b = elim (ℕ_discrete e 0) [
      | yes z ↦ rw z
      | no n ↦ let idle = h e (ground arith) in ground arith
    ]

-- ROUNDROBIN returns as soon as no thread is runnable, though threads that yielded remain.
pub round_robin_returned :
    (l : Library)
    → ((j : ℕ) → is_slot j ≡ true → is_runnable (l.ul_thread j) ≡ false)
    → round_robin_round l ≡ returned l
unfolding round_robin_round
round_robin_returned l h =
    rw (next_in_turn-none l.current_tid max_threads 0 l.ul_thread h, round_robin_round)

-- What the search of ROUNDROBIN finds, from distance `i` on: a runnable slot, and none that is
-- runnable at a smaller distance from the current thread.
pub record InTurn (current rounds i k : ℕ) (ts : ℕ → Thread) : Type 0 where
  pub distance : ℕ
  pub from : i ≤ distance
  pub before : distance < i + rounds
  pub slot : k ≡ (current + distance) % max_threads
  pub inside : is_slot k ≡ true
  pub ready : is_runnable (ts k) ≡ true
  pub passed :
      (c : ℕ)
      → i ≤ c
      → c < distance
      → (not ((current + c) % max_threads == 0) && is_runnable (ts ((current + c) % max_threads)))
        ≡ false

InTurn-here :
    (current rounds i e k : ℕ) (ts : ℕ → Thread)
    → e ≡ (current + i) % max_threads
    → (not (e == 0) && is_runnable (ts e)) ≡ true
    → e ≡ k
    → InTurn current (suc rounds) i k ts
InTurn-here current rounds i e k ts d y same = record {
  distance = i;
  from = omega arith;
  before = omega arith;
  slot = sym same ∙ d;
  inside = rw (sym same) (ground arith);
  ready = rw (sym same) (ground arith);
  passed = λ c a b. absurd (omega arith);
}

InTurn-later :
    (current rounds i k : ℕ) (ts : ℕ → Thread)
    → (not ((current + i) % max_threads == 0) && is_runnable (ts ((current + i) % max_threads)))
      ≡ false
    → InTurn current rounds (i + 1) k ts
    → InTurn current (suc rounds) i k ts
InTurn-later current rounds i k ts n t = record {
  distance = t.distance;
  from = omega (arith, t.from);
  before = omega (arith, t.before);
  slot = t.slot;
  inside = t.inside;
  ready = t.ready;
  passed =
      λ c a b. elim (ℕ_discrete i c) [ yes e ↦ rw (sym e) n | no d ↦ t.passed c (omega arith) b ];
}

pub next_in_turn-some :
    (current rounds i k : ℕ) (ts : ℕ → Thread)
    → next_in_turn current rounds i ts ≡ some k
    → InTurn current rounds i k ts
unfolding next_in_turn
next_in_turn-some current zero i k ts h = absurd (cc)
next_in_turn-some current (suc rounds) i k ts h =
    let e = (current + i) % max_threads in
    elim (Bool-cases (not (e == 0) && is_runnable (ts e))) [
      | inl y ↦ InTurn-here current rounds i e k ts refl y (ground arith)
      | inr n ↦
          InTurn-later current rounds i k ts n
            (next_in_turn-some current rounds (i + 1) k ts (rw n at h))
    ]

found_switch :
    (l l' : Library) (k : ℕ)
    → next_in_turn l.current_tid max_threads 0 l.ul_thread ≡ some k
    → round_robin_round l ≡ switched l'
    → (l'.current_tid ≡ k) × (k ≢ l.current_tid) × (l'.prev_tid ≡ l.current_tid)
unfolding round_robin_round
found_switch l l' k e h = ground arith

pub turn_switch :
    (l l' : Library) (k : ℕ)
    → next_in_turn l.current_tid max_threads 0 l.ul_thread ≡ some k
    → round_robin_round l ≡ switched l'
    → switch_to l l.ul_thread k ≡ switched l'
unfolding round_robin_round
turn_switch l l' k e h = elim (Bool-cases (k == l.current_tid)) [
  | inl y ↦ ground arith
  | inr n ↦ ground arith
]

pub none_switch :
    (l l' : Library)
    → next_in_turn l.current_tid max_threads 0 l.ul_thread ≡ none
    → round_robin_round l ≡ switched l'
    → ⊥
unfolding round_robin_round
none_switch l l' e h = ground arith

-- Where ROUNDROBIN switches, it is to another thread than the current one, which is runnable and the
-- first such on the way round the table from the current thread.
pub round_robin_switched :
    (l l' : Library)
    → round_robin_round l ≡ switched l'
    → InTurn l.current_tid max_threads 0 l'.current_tid l.ul_thread
      × (l'.current_tid ≢ l.current_tid)
      × (l'.prev_tid ≡ l.current_tid)
round_robin_switched l l' h =
    elim (Option-cases (next_in_turn l.current_tid max_threads 0 l.ul_thread)) [
      | inl e ↦ absurd (none_switch l l' e h)
      | inr (k, e) ↦
          let (cur, other, prev) = found_switch l l' k e h in
          let t = next_in_turn-some l.current_tid max_threads 0 k l.ul_thread e in
          (
            subst (λ c. InTurn l.current_tid max_threads 0 c l.ul_thread) (sym cur) t,
            rw cur other,
            prev,
          )
    ]
