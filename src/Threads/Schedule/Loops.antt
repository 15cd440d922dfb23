-- ===== src/Threads/Schedule/Loops.antt =====
-- Project-3, user/ulthread.c: what the loops of the scheduler find.
use cse_536_advanced_operati.Base.{
  sym, ap, ◌∙◌, ℕ, zero, suc, ◌+◌, ◌≡◌, ◌≢◌, ◌⊎◌, inl, inr, Bool, true, false, ◌&&◌, Option, none,
  some, ltb, leb, if◌then◌else◌, arith, Bool-cases, ℕ_discrete,
}
use cse_536_advanced_operati.Threads.State.{runnable, Thread, is_runnable, is_yielded, set_state}
use cse_536_advanced_operati.Threads.Schedule.{first_runnable, wake_yielded}

-- The slot lies among `rounds` slots from `i` on.
abbrev pub in_range : ℕ → ℕ → ℕ → Bool
in_range rounds i j = leb i j && ltb j (i + rounds)

pub first_runnable-none :
    (rounds i j : ℕ) (ts : ℕ → Thread)
    → first_runnable rounds i ts ≡ none
    → in_range rounds i j ≡ true
    → is_runnable (ts j) ≡ false
unfolding first_runnable
first_runnable-none zero i j ts h r = ground arith
first_runnable-none (suc rounds) i j ts h r = elim (ℕ_discrete i j) [
  | yes e ↦ rw (← e) (ground arith)
  | no n ↦ first_runnable-none rounds (i + 1) j ts (ground arith) (ground arith)
]

pub first_runnable-some :
    (rounds i k : ℕ) (ts : ℕ → Thread)
    → first_runnable rounds i ts ≡ some k
    → (in_range rounds i k ≡ true) × (is_runnable (ts k) ≡ true)
unfolding first_runnable
first_runnable-some zero i k ts h = absurd (cc)
first_runnable-some (suc rounds) i k ts h = elim (Bool-cases (is_runnable (ts i))) [
  | inl y ↦ let e : i ≡ k = ground arith in rw (← e) (ground arith, y)
  | inr n ↦
      let next = first_runnable-some rounds (i + 1) k ts (ground arith) in (ground arith, next.1)
]

-- A slot once the yielded threads among `rounds` slots from `i` on have been made runnable.
abbrev pub woken : ℕ → ℕ → (ℕ → Thread) → ℕ → Thread
woken rounds i ts j =
    if in_range rounds i j && is_yielded (ts j) then record (ts j) { state = runnable } else ts j

woken_step :
    (rounds i j : ℕ) (ts : ℕ → Thread)
    → is_yielded (ts i) ≡ true
    → woken rounds (i + 1) (set_state ts i runnable) j ≡ woken (suc rounds) i ts j
woken_step rounds i j ts y = elim (ℕ_discrete j i) [
  | yes e ↦ rw e (ground arith)
  | no n ↦ ground arith
]

woken_skip :
    (rounds i j : ℕ) (ts : ℕ → Thread)
    → is_yielded (ts i) ≡ false
    → woken rounds (i + 1) ts j ≡ woken (suc rounds) i ts j
woken_skip rounds i j ts y = elim (ℕ_discrete j i) [
  | yes e ↦ rw e (ground arith)
  | no n ↦ ground arith
]

-- One turn of the loop, by what its test says.
wake_turn :
    (rounds i : ℕ) (ts : ℕ → Thread) (next : Option ℕ) (b : Bool)
    → is_yielded (ts i) ≡ b
    → wake_yielded (suc rounds) i ts next
      ≡ wake_yielded rounds
          (i + 1)
          (if b then set_state ts i runnable else ts)
          (if b then some i else next)
unfolding wake_yielded
wake_turn rounds i ts next b h =
    ap
      (λ c.
        wake_yielded rounds (i + 1) (if c then set_state ts i runnable else ts)
          (if c then some i else next))
      h

pub wake_yielded_threads :
    (rounds i j : ℕ) (ts : ℕ → Thread) (next : Option ℕ)
    → (wake_yielded rounds i ts next).0 j ≡ woken rounds i ts j
wake_yielded_threads zero i j ts next = unfold wake_yielded in ground arith
wake_yielded_threads (suc rounds) i j ts next = elim (Bool-cases (is_yielded (ts i))) [
  | inl y ↦
      ap (λ w. w.0 j) (wake_turn rounds i ts next true y)
      ∙ wake_yielded_threads rounds (i + 1) j (set_state ts i runnable) (some i)
      ∙ woken_step rounds i j ts y
  | inr n ↦
      ap (λ w. w.0 j) (wake_turn rounds i ts next false n)
      ∙ wake_yielded_threads rounds (i + 1) j ts next
      ∙ woken_skip rounds i j ts n
]

-- The slot that the loop hands on: the one it was given, or one that had yielded.
abbrev Handed : ℕ → ℕ → (ℕ → Thread) → Option ℕ → ℕ → Type 0
Handed rounds i ts next k =
    (next ≡ some k) ⊎ (in_range rounds i k ≡ true) × (is_yielded (ts k) ≡ true)

Handed-step :
    (rounds i k : ℕ) (ts : ℕ → Thread) (next : Option ℕ)
    → is_yielded (ts i) ≡ true
    → Handed rounds (i + 1) (set_state ts i runnable) (some i) k
    → Handed (suc rounds) i ts next k
Handed-step rounds i k ts next y (inl e) =
    let same : i ≡ k = ground arith in
    inr (ground arith, ap (λ a. is_yielded (ts a)) (sym same) ∙ y)
Handed-step rounds i k ts next y (inr (r, z)) = inr (ground arith, ground arith)

Handed-skip :
    (rounds i k : ℕ) (ts : ℕ → Thread) (next : Option ℕ)
    → Handed rounds (i + 1) ts next k
    → Handed (suc rounds) i ts next k
Handed-skip rounds i k ts next (inl e) = inl e
Handed-skip rounds i k ts next (inr (r, z)) = inr (ground arith, z)

pub wake_yielded_next :
    (rounds i k : ℕ) (ts : ℕ → Thread) (next : Option ℕ)
    → (wake_yielded rounds i ts next).1 ≡ some k
    → Handed rounds i ts next k
wake_yielded_next zero i k ts next h = inl (unfold wake_yielded in h)
wake_yielded_next (suc rounds) i k ts next h = elim (Bool-cases (is_yielded (ts i))) [
  | inl y ↦ Handed-step rounds i k ts next y (
      wake_yielded_next rounds (i + 1) k (set_state ts i runnable) (some i)
        (sym (ap (λ w. w.1) (wake_turn rounds i ts next true y)) ∙ h))
  | inr n ↦ Handed-skip rounds i k ts next (
      wake_yielded_next rounds (i + 1) k ts next
        (sym (ap (λ w. w.1) (wake_turn rounds i ts next false n)) ∙ h))
]

-- A slot handed on is not lost.
wake_yielded-some :
    (rounds i k : ℕ) (ts : ℕ → Thread) → (wake_yielded rounds i ts (some k)).1 ≢ none
unfolding wake_yielded
wake_yielded-some zero i k ts h = absurd (cc)
wake_yielded-some (suc rounds) i k ts h = elim (Bool-cases (is_yielded (ts i))) [
  | inl y ↦
      wake_yielded-some rounds (i + 1) i (set_state ts i runnable)
        (sym (ap (λ w. w.1) (wake_turn rounds i ts (some k) true y)) ∙ h)
  | inr n ↦
      wake_yielded-some rounds (i + 1) k ts
        (sym (ap (λ w. w.1) (wake_turn rounds i ts (some k) false n)) ∙ h)
]

-- Only where nothing had yielded is nothing handed on.
pub wake_yielded-none :
    (rounds i j : ℕ) (ts : ℕ → Thread) (next : Option ℕ)
    → (wake_yielded rounds i ts next).1 ≡ none
    → in_range rounds i j ≡ true
    → is_yielded (ts j) ≡ false
wake_yielded-none zero i j ts next h r = ground arith
wake_yielded-none (suc rounds) i j ts next h r = elim (Bool-cases (is_yielded (ts i))) [
  | inl y ↦ absurd (
      wake_yielded-some rounds (i + 1) i (set_state ts i runnable)
        (sym (ap (λ w. w.1) (wake_turn rounds i ts next true y)) ∙ h))
  | inr n ↦ elim (ℕ_discrete i j) [
    | yes e ↦ ap (λ a. is_yielded (ts a)) (sym e) ∙ n
    | no d ↦
        wake_yielded-none rounds (i + 1) j ts next
          (sym (ap (λ w. w.1) (wake_turn rounds i ts next false n)) ∙ h) (ground arith)
  ]
]
