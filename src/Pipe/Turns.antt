-- ===== src/Pipe/Turns.antt =====
-- Project-2, kernel/pipe.c: a pipewrite() that sleeps comes to its end if a reader goes on reading.
use cse_536_advanced_operati.Base.{
  ℕ, zero, suc, ◌+◌, ◌-◌, ◌%◌, ◌^◌, ◌≤◌, ◌<◌, ◌≡◌, refl, sym, ap, ◌∙◌, subst, inl, inr, Bool, true,
  false, Option, none, some, List, [], ◌∷◌, ◌++◌, length, arith, Bool-cases, ℕ_discrete,
}
use mathlib.Core.List.{append-nil}
use cse_536_advanced_operati.Pipe.{
  Pipe, pipesize, is_full, Written, wrote, full, refused, pipewrite, read_from,
}
use cse_536_advanced_operati.Pipe.Queue.{contents, window, count, IsValid}
use cse_536_advanced_operati.Pipe.Loops.{
  taken, Appended, Writes, done, blocked, denied, write_from-Writes, Reads, read_from-Reads,
}

-- A turn that sleeps is followed by a piperead() of `size` bytes and the next turn.
unfoldable pub resume : (ℕ → Pipe → Option Written) → ℕ → Written → Option Written
resume again size (wrote j q) = some (wrote j q)
resume again size (full j q) = again j (read_from size 0 (λ k. true) q).1
resume again size (refused q) = some (refused q)

-- pipewrite() of `n` bytes from byte `i` on, in at most so many turns.
unfoldable pub write_turns : ℕ → ℕ → ℕ → (ℕ → Option ℕ) → Bool → ℕ → Pipe → Option Written
write_turns zero size n input killed i p = none
write_turns (suc turns) size n input killed i p =
    resume (write_turns turns size n input killed) size (pipewrite n i input killed p)

-- The ends of a pipewrite() of `n` bytes: with all of them, at the first one that copyin() cannot
-- read, or with -1.
pub data Returned (input : ℕ → Option ℕ) (n : ℕ) : Written → Type 0 where
  with_all : (q : Pipe) → Returned input n (wrote n q)
  unreadable : (j : ℕ) (q : Pipe) → input j ≡ none → Returned input n (wrote j q)
  with_error : (q : Pipe) → Returned input n (refused q)

length-window : (bytes : ℕ → ℕ) (h n : ℕ) → length (window bytes h n) ≡ n
unfolding window
length-window bytes h zero = refl
length-window bytes h (suc n) = ap suc (length-window bytes ((h + 1) % 2 ^ 32) n)

length_append : {A : Type 0} (xs ys : List A) → length (xs ++ ys) ≡ length xs + length ys
length_append [] ys = omega arith
length_append (x ∷ xs) ys = let h = length_append xs ys in omega arith

length-contents : (p : Pipe) → length (contents p) ≡ count p
unfolding contents
length-contents p = length-window p.bytes p.nread (count p)

full_count : (p : Pipe) → IsValid p → is_full p ≡ true → count p ≡ pipesize
full_count p valid f = let a = valid.nread in let b = valid.nwrite in ground arith

room_left : (p : Pipe) → IsValid p → count p < pipesize → is_full p ≡ false
room_left p valid small = elim (Bool-cases (is_full p)) [
  | inl f ↦ let e = full_count p valid f in absurd (omega arith)
  | inr room ↦ room
]

-- Behind a read of a byte at least the pipe has room.
read_from-room :
    (size : ℕ) (q : Pipe) (r : List ℕ × Pipe)
    → IsValid q
    → 0 < size
    → Reads size q r
    → is_full r.1 ≡ false
read_from-room size q r valid some_room reads =
    let total : count q ≡ length r.0 + count r.1 =
      sym (length-contents q)
      ∙ ap length reads.bytes
      ∙ length_append r.0 (contents r.1)
      ∙ ap (λ n. length r.0 + n) (length-contents r.1) in
    let fits = valid.fits in
    room_left r.1 reads.valid (elim reads.ends [
      | inl all ↦ omega arith
      | inr e ↦ let a = reads.valid.nread in let b = reads.valid.nwrite in ground arith
    ])

-- A turn that begins with room in the pipe and sleeps has written a byte.
progress :
    (input : ℕ → Option ℕ) (i rounds : ℕ) (p : Pipe) (j : ℕ) (q : Pipe)
    → IsValid p
    → is_full p ≡ false
    → Appended input i rounds p j q
    → is_full q ≡ true
    → i < j
unfolding taken
progress input i rounds p j q valid room a f = elim (ℕ_discrete (j - i) 0) [
  | yes e ↦
      let same : contents q ≡ contents p =
        a.bytes ∙ ap (λ n. contents p ++ taken input i n) e ∙ append-nil (contents p) in
      let counts : count q ≡ count p =
        sym (length-contents q) ∙ ap length same ∙ length-contents p in
      let all = full_count q a.valid f in
      let x = valid.nread in let y = valid.nwrite in absurd (ground arith)
  | no ne ↦ let low = a.low in omega (arith, ne)
]

module _ (size n : ℕ) (input : ℕ → Option ℕ) (killed : Bool) where
  abbrev Ends : ℕ → ℕ → Pipe → Type 0
  Ends turns i p =
      (w : Written) × (write_turns turns size n input killed i p ≡ some w) × Returned input n w

  -- A turn that returned, or that sleeps where the next turns come to an end.
  settle :
      (turns i : ℕ) (p : Pipe) (w : Written)
      → 0 < size
      → i ≤ n
      → Writes input i (n - i) p w
      → ((j : ℕ) (q : Pipe) → Appended input i (n - i) p j q → is_full q ≡ true → n - j < turns)
      → ((j : ℕ) (q : Pipe)
          → IsValid q
          → is_full q ≡ false
          → j ≤ n
          → n - j < turns
          → Ends turns j q)
      → (w' : Written) × (resume (write_turns turns size n input killed) size w ≡ some w')
        × Returned input n w'
  unfolding resume
  settle turns i p _ some_room low (done j q a (inl all)) left next =
      let same : n ≡ j = omega arith in
      (wrote j q, refl, subst (λ k. Returned input n (wrote k q)) same (with_all q))
  settle turns i p _ some_room low (done j q a (inr stop)) left next =
      (wrote j q, refl, unreadable j q stop)
  settle turns i p _ some_room low (denied j q a) left next = (refused q, refl, with_error q)
  settle turns i p _ some_room low (blocked j q a f) left next =
      let reads = read_from-Reads size 0 (λ k. true) q (λ k. refl) a.valid in
      let r = read_from size 0 (λ k. true) q in
      let high = a.high in
      next j r.1 reads.valid (read_from-room size q r a.valid some_room reads) (omega arith)
        (left j q a f)

  write_turns_room :
      (turns i : ℕ) (p : Pipe)
      → 0 < size
      → IsValid p
      → is_full p ≡ false
      → i ≤ n
      → n - i < turns
      → Ends turns i p
  unfolding write_turns pipewrite
  write_turns_room zero i p some_room valid room low small = absurd (omega arith)
  write_turns_room (suc turns) i p some_room valid room low small =
      settle turns i p (pipewrite n i input killed p) some_room low
        (write_from-Writes input (n - i) i killed p valid)
        (λ j q a f.
          let more = progress input i (n - i) p j q valid room a f in
          let high = a.high in omega arith)
        (λ j q v r l s. write_turns_room turns j q some_room v r l s)

  -- A pipewrite() of `n` bytes, where a reader takes a byte at least whenever it sleeps, returns
  -- after n + 2 turns at most: with all its bytes, at the first that copyin() cannot read, or with -1.
  pub write_turns_lem :
      (turns : ℕ) (p : Pipe)
      → 0 < size
      → IsValid p
      → n + 2 ≤ turns
      → (w : Written) × (write_turns turns size n input killed 0 p ≡ some w) × Returned input n w
  unfolding write_turns pipewrite
  write_turns_lem zero p some_room valid small = absurd (omega arith)
  write_turns_lem (suc turns) p some_room valid small =
      settle turns 0 p (pipewrite n 0 input killed p) some_room (omega arith)
        (write_from-Writes input (n - 0) 0 killed p valid) (λ j q a f. omega arith)
        (λ j q v r l s. write_turns_room turns j q some_room v r l s)
