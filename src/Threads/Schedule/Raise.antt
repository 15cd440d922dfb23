-- ===== src/Threads/Schedule/Raise.antt =====
-- Project-3, user/ulthread.c: the loops of the scheduler that move to a better thread.
use cse_536_advanced_operati.Base.{
  ap, ◌∙◌, ℕ, zero, suc, ◌+◌, ◌≤◌, ◌≡◌, refl, ◌⊎◌, inl, inr, Bool, true, false, ◌&&◌, Option, none,
  some, ltb, if◌then◌else◌, arith, Bool-cases, ℕ_discrete,
}
use cse_536_advanced_operati.Threads.State.{Thread, is_runnable}
use cse_536_advanced_operati.Threads.Schedule.{raise_priority, raise_age}
use cse_536_advanced_operati.Threads.Schedule.Loops.{in_range}

raise_turn :
    (before rounds i n : ℕ) (ts : ℕ → Thread) (b : Bool)
    → (ltb (ts n).priority (ts i).priority && is_runnable (ts i)) ≡ b
    → raise_priority before (suc rounds) i ts (some n)
      ≡ raise_priority before rounds (i + 1) ts (if b then some i else some n)
unfolding raise_priority
raise_turn before rounds i n ts b h =
    ap (λ c. raise_priority before rounds (i + 1) ts (if c then some i else some n)) h

-- What the loop of priorities, started at slot `n`, ends with: a slot `k` that is `n`, or runnable
-- and in range, such that neither `n` nor a runnable slot in range has a higher priority.
pub record Raised (rounds i n : ℕ) (ts : ℕ → Thread) (o : Option ℕ) : Type 0 where
  pub slot : ℕ
  pub found : o ≡ some slot
  pub place : (slot ≡ n) ⊎ (in_range rounds i slot ≡ true) × (is_runnable (ts slot) ≡ true)
  pub above : (ts n).priority ≤ (ts slot).priority
  pub highest :
      (j : ℕ)
      → in_range rounds i j ≡ true
      → is_runnable (ts j) ≡ true
      → (ts j).priority ≤ (ts slot).priority

raised_place :
    (rounds i n m k : ℕ) (ts : ℕ → Thread)
    → ((m ≡ n) ⊎ (m ≡ i) × (is_runnable (ts i) ≡ true))
    → ((k ≡ m) ⊎ (in_range rounds (i + 1) k ≡ true) × (is_runnable (ts k) ≡ true))
    → ((k ≡ n) ⊎ (in_range (suc rounds) i k ≡ true) × (is_runnable (ts k) ≡ true))
raised_place rounds i n m k ts (inl p) (inl q) = inl (q ∙ p)
raised_place rounds i n m k ts (inr (p, z)) (inl q) =
    inr (ground arith, ap (λ c. is_runnable (ts c)) (q ∙ p) ∙ z)
raised_place rounds i n m k ts p (inr (g, z)) = inr (ground arith, z)

Raised-step :
    (rounds i n m : ℕ) (ts : ℕ → Thread) (o : Option ℕ)
    → ((m ≡ n) ⊎ (m ≡ i) × (is_runnable (ts i) ≡ true))
    → (ts n).priority ≤ (ts m).priority
    → (is_runnable (ts i) ≡ true → (ts i).priority ≤ (ts m).priority)
    → Raised rounds (i + 1) m ts o
    → Raised (suc rounds) i n ts o
Raised-step rounds i n m ts o p a b r = record {
  slot = r.slot;
  found = r.found;
  place = raised_place rounds i n m r.slot ts p r.place;
  above = omega arith;
  highest = λ j g h. elim (ℕ_discrete i j) [
    | yes e ↦ rw (← e) (omega (arith, b (ap (λ c. is_runnable (ts c)) e ∙ h), r.above))
    | no d ↦ r.highest j (ground arith) h
  ];
}

pub raise_priority_lem :
    (before rounds i n : ℕ) (ts : ℕ → Thread)
    → Raised rounds i n ts (raise_priority before rounds i ts (some n))
raise_priority_lem before zero i n ts = record {
  slot = n;
  found = unfold raise_priority in refl;
  place = inl refl;
  above = omega arith;
  highest = λ j r h. ground arith;
}
raise_priority_lem before (suc rounds) i n ts =
    elim (Bool-cases (ltb (ts n).priority (ts i).priority && is_runnable (ts i))) [
      | inl y ↦ rw (raise_turn before rounds i n ts true y) (
          Raised-step rounds i n i ts _ (inr (refl, ground arith)) (ground arith) (λ h. omega arith)
            (raise_priority_lem before rounds (i + 1) i ts))
      | inr z ↦ rw (raise_turn before rounds i n ts false z) (
          Raised-step rounds i n n ts _ (inl refl) (omega arith) (λ h. ground arith)
            (raise_priority_lem before rounds (i + 1) n ts))
    ]

age_turn :
    (rounds i n : ℕ) (ts : ℕ → Thread) (b : Bool)
    → (ltb (ts i).time_created (ts n).time_created && is_runnable (ts i)) ≡ b
    → raise_age (suc rounds) i ts n ≡ raise_age rounds (i + 1) ts (if b then i else n)
unfolding raise_age
age_turn rounds i n ts b h = ap (λ c. raise_age rounds (i + 1) ts (if c then i else n)) h

-- The loop of ages ends with the slot it was given, or with a runnable slot in range.
pub raise_age_place :
    (rounds i n : ℕ) (ts : ℕ → Thread)
    → let k = raise_age rounds i ts n in
      (k ≡ n) ⊎ (in_range rounds i k ≡ true) × (is_runnable (ts k) ≡ true)
raise_age_place zero i n ts = inl (unfold raise_age in refl)
raise_age_place (suc rounds) i n ts =
    elim (Bool-cases (ltb (ts i).time_created (ts n).time_created && is_runnable (ts i))) [
      | inl y ↦ rw (age_turn rounds i n ts true y) (
          raised_place rounds i n i _ ts (inr (refl, ground arith))
            (raise_age_place rounds (i + 1) i ts))
      | inr z ↦
          rw (age_turn rounds i n ts false z)
            (raised_place rounds i n n _ ts (inl refl) (raise_age_place rounds (i + 1) n ts))
    ]

-- While no thread is older than another the loop of ages stays where it is.
pub raise_age_same :
    (rounds i n : ℕ) (ts : ℕ → Thread)
    → ((j : ℕ) → (ts n).time_created ≤ (ts j).time_created)
    → raise_age rounds i ts n ≡ n
raise_age_same zero i n ts h = unfold raise_age in refl
raise_age_same (suc rounds) i n ts h =
    age_turn rounds i n ts false (let old = h i in ground arith)
    ∙ raise_age_same rounds (i + 1) n ts h

-- Where no slot in range is runnable, the loop of priorities leaves -1 as it is, whatever it reads
-- before the table.
pub raise_priority_idle :
    (before rounds i : ℕ) (ts : ℕ → Thread)
    → ((j : ℕ) → in_range rounds i j ≡ true → is_runnable (ts j) ≡ false)
    → raise_priority before rounds i ts none ≡ none
unfolding raise_priority
raise_priority_idle before zero i ts h = refl
raise_priority_idle before (suc rounds) i ts h =
    let off : (ltb before (ts i).priority && is_runnable (ts i)) ≡ false =
      let idle = h i (ground arith) in ground arith in
    ap (λ c. raise_priority before rounds (i + 1) ts (if c then some i else none)) off
    ∙ raise_priority_idle before rounds (i + 1) ts (λ j r. h j (ground arith))
