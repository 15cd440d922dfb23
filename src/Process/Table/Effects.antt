-- ===== src/Process/Table/Effects.antt =====
-- Project-2, kernel/proc.c: what each operation does to the lives of the processes, whatever the
-- memory and the files do.
use cse_536_advanced_operati.Base.{
  ℕ, zero, suc, ◌+◌, ◌%◌, ◌^◌, ◌<◌, ◌≤◌, ◌≡◌, refl, sym, ap, ◌∙◌, subst, ◌⊎◌, inl, inr, Bool, true,
  false, Option, none, some, ◌==◌, ret, panic, >>=-holds, >>=-eq-ret, ret_injective, arith,
  Bool-cases, ℕ_discrete, if_true, if_false,
}
use mathlib.Core.Path.{fun_ext}
use cse_536_advanced_operati.Process.State.{
  used, runnable, is_unused, Life, KernelOps, Processes, nproc, put,
}
use cse_536_advanced_operati.Process.User.{free_user, alloc_user, copy_memory, inherit, close_user}
use cse_536_advanced_operati.Process.Table.{
  find_proc, free_life, freeproc, named_at, keep_or_free, alloc_at, start_child, start_or_free, die,
  fork_at, fork_found, fork, exit,
}

-- The first process that passes the test is in the range, passes it, and those before it do not.
pub find_proc-some :
    (rounds i : ℕ) (test : Life → Bool) (life : ℕ → Life) (j : ℕ)
    → find_proc rounds i test life ≡ some j
    → (i ≤ j) × (j < i + rounds) × (test (life j) ≡ true)
unfolding find_proc
find_proc-some zero i test life j e = absurd (cc)
find_proc-some (suc rounds) i test life j e = elim (Bool-cases (test (life i))) [
  | inl yes_i ↦
      let same : i ≡ j =
        cc (sym (if_true (some i) (find_proc rounds (i + 1) test life) yes_i) ∙ e) in
      (omega arith, omega arith, ap (λ x. test (life x)) (sym same) ∙ yes_i)
  | inr no_i ↦
      let (low, high, holds) =
        find_proc-some rounds (i + 1) test life j
          (sym (if_false (some i) (find_proc rounds (i + 1) test life) no_i) ∙ e) in
      (omega arith, omega arith, holds)
]

pub find_proc-none :
    (rounds i : ℕ) (test : Life → Bool) (life : ℕ → Life) (j : ℕ)
    → find_proc rounds i test life ≡ none
    → i ≤ j
    → j < i + rounds
    → test (life j) ≡ false
unfolding find_proc
find_proc-none zero i test life j e low high = absurd (omega arith)
find_proc-none (suc rounds) i test life j e low high = elim (Bool-cases (test (life i))) [
  | inl yes_i ↦ absurd (cc (sym (if_true (some i) (find_proc rounds (i + 1) test life) yes_i) ∙ e))
  | inr no_i ↦ elim (ℕ_discrete i j) [
    | yes same ↦ ap (λ x. test (life x)) (sym same) ∙ no_i
    | no apart ↦
        find_proc-none rounds (i + 1) test life j
          (sym (if_false (some i) (find_proc rounds (i + 1) test life) no_i) ∙ e) (omega arith)
          (omega arith)
  ]
]

-- The table after an operation: the lives, and the pid that the next process gets.
pub record Becomes {World Space : Type 0} (k k' : Processes World Space) (life : ℕ → Life)
    (nextpid : ℕ) : Type 0 where
  pub lives : k'.life ≡ life
  pub pids : k'.nextpid ≡ nextpid
  pub init : k'.initproc ≡ k.initproc

-- The table behind a fork(): no slot was free, or the child could not have its memory, or it runs.
pub data Forked {World Space : Type 0} (cur : ℕ) (k k' : Processes World Space) (i : ℕ)
    : Option ℕ → Type 0 where
  full : k ≡ k' → Forked cur k k' i none
  failed : Becomes k k' (put k.life i free_life) ((k.nextpid + 1) % 2 ^ 32) → Forked cur k k' i none
  forked :
      Becomes k k'
        (put k.life i (record (k.life i) { pid = k.nextpid; state = runnable; parent = some cur }))
        ((k.nextpid + 1) % 2 ^ 32)
      → Forked cur k k' i (some k.nextpid)

put-put : (life : ℕ → Life) (i : ℕ) (p q : Life) → put (put life i p) i q ≡ put life i q
put-put life i p q = fun_ext (λ j. ground arith)

put_same : (life : ℕ → Life) (i : ℕ) (p : Life) → put life i p i ≡ p
put_same life i p = ground arith

module _ {World Space : Type 0} (ops : KernelOps World Space) where
  pub freeproc_lem :
      (cur i : ℕ) (k k' : Processes World Space)
      → freeproc ops cur i k ≡ ret k'
      → Becomes k k' (put k.life i free_life) k.nextpid
  unfolding freeproc
  freeproc_lem cur i k k' h =
      >>=-holds (λ x. Becomes k x (put k.life i free_life) k.nextpid) (free_user ops cur i k.rest)
        (λ rest. ret (record k { life = put k.life i free_life; rest = rest })) h
        (λ rest one two.
          subst (λ x. Becomes k x (put k.life i free_life) k.nextpid) (ret_injective two)
            (record { lives = refl; pids = refl; init = refl }))

  -- The table with process `i` named and in use.
  abbrev Named : ℕ → Processes World Space → Processes World Space → Type 0
  Named i k k' =
      Becomes k k' (put k.life i (record (k.life i) { pid = k.nextpid; state = used }))
        ((k.nextpid + 1) % 2 ^ 32)

  freed_named :
      (cur i : ℕ) (k k' k'' : Processes World Space)
      → Named i k k'
      → freeproc ops cur i k' ≡ ret k''
      → Becomes k k'' (put k.life i free_life) ((k.nextpid + 1) % 2 ^ 32)
  freed_named cur i k k' k'' named h =
      let freed = freeproc_lem cur i k' k'' h in
      record {
        lives =
            freed.lives
            ∙ ap (λ l. put l i free_life) named.lives
            ∙ put-put k.life i (record (k.life i) { pid = k.nextpid; state = used }) free_life;
        pids = freed.pids ∙ named.pids;
        init = freed.init ∙ named.init;
      }

  -- What alloc_at() gives, with and without memory for the process.
  abbrev Allocated : ℕ → Processes World Space → Bool × Processes World Space → Type 0
  Allocated i k r =
      ((r.0 ≡ true) × Named i k r.1)
      ⊎ ((r.0 ≡ false) × Becomes k r.1 (put k.life i free_life) ((k.nextpid + 1) % 2 ^ 32))

  keep_or_free_lem :
      (cur i : ℕ) (ok : Bool) (k k' : Processes World Space) (r : Bool × Processes World Space)
      → Named i k k'
      → keep_or_free ops cur i ok k' ≡ ret r
      → Allocated i k r
  unfolding keep_or_free
  keep_or_free_lem cur i true k k' r named h =
      subst (Allocated i k) (ret_injective h) (inl (refl, named))
  keep_or_free_lem cur i false k k' r named h =
      let (freed, one, two) = >>=-eq-ret (freeproc ops cur i k') (λ freed. ret (false, freed)) h in
      subst (Allocated i k) (ret_injective two) (inr (refl, freed_named cur i k k' freed named one))

  alloc_at_lem :
      (cur i : ℕ) (k : Processes World Space) (r : Bool × Processes World Space)
      → alloc_at ops cur i k ≡ ret r
      → Allocated i k r
  unfolding alloc_at named_at
  alloc_at_lem cur i k r h =
      let (made, one, two) =
        >>=-eq-ret (alloc_user ops i k.rest)
          (λ made. keep_or_free ops cur i made.0 (named_at i k made.1)) h in
      keep_or_free_lem cur i made.0 k (named_at i k made.1) r
        (record { lives = refl; pids = refl; init = refl }) two

  abbrev Forks : ℕ → ℕ → Processes World Space → Option ℕ × Processes World Space → Type 0
  Forks cur i k r = Forked cur k r.1 i r.0

  start_or_free_lem :
      (cur i : ℕ) (ok : Bool) (k k' : Processes World Space) (r : Option ℕ × Processes World Space)
      → Named i k k'
      → start_or_free ops cur i ok k' ≡ ret r
      → Forks cur i k r
  unfolding start_or_free start_child
  start_or_free_lem cur i true k k' r named h =
      let (rest, one, two) =
        >>=-eq-ret (inherit ops cur i k'.rest)
          (λ rest. ret (some (k'.life i).pid, start_child cur i k' rest)) h in
      let named_life : Life = record (k.life i) { pid = k.nextpid; state = used } in
      let child : Life = record (k.life i) {
        pid = k.nextpid;
        state = runnable;
        parent = some cur;
      } in
      let own : k'.life i ≡ named_life = ap (λ l. l i) named.lives ∙ put_same k.life i named_life in
      let ran : Becomes k (start_child cur i k' rest) (put k.life i child)
          ((k.nextpid + 1) % 2 ^ 32) =
        record {
          lives =
              ap (λ p. put k'.life i (record p { parent = some cur; state = runnable })) own
              ∙ ap (λ l. put l i child) named.lives
              ∙ put-put k.life i named_life child;
          pids = named.pids;
          init = named.init;
        } in
      subst (Forks cur i k) (ret_injective two) (
        subst (λ pid. Forked cur k (start_child cur i k' rest) i (some pid))
          (sym (ap (λ p. p.pid) own)) (forked ran))
  start_or_free_lem cur i false k k' r named h =
      let (freed, one, two) = >>=-eq-ret (freeproc ops cur i k') (λ freed. ret (none, freed)) h in
      subst (Forks cur i k) (ret_injective two) (failed (freed_named cur i k k' freed named one))

  fork_at_lem :
      (cow : Bool) (cur i : ℕ) (k : Processes World Space)
      (allocated : Bool × Processes World Space) (r : Option ℕ × Processes World Space)
      → Allocated i k allocated
      → fork_at ops cow cur i allocated ≡ ret r
      → Forks cur i k r
  unfolding fork_at
  fork_at_lem cow cur i k (true, k') r (inl q) h =
      let (copied, one, two) =
        >>=-eq-ret (copy_memory ops cow cur i (k'.life cur).pid k'.rest)
          (λ copied. start_or_free ops cur i copied.0 (record k' { rest = copied.1 })) h in
      start_or_free_lem cur i copied.0 k (record k' { rest = copied.1 }) r
        (record { lives = q.1.lives; pids = q.1.pids; init = q.1.init }) two
  fork_at_lem cow cur i k (false, k') r (inl q) h = absurd (let e = q.0 in cc)
  fork_at_lem cow cur i k (true, k') r (inr q) h = absurd (let e = q.0 in cc)
  fork_at_lem cow cur i k (false, k') r (inr q) h =
      subst (Forks cur i k) (ret_injective h) (failed q.1)

  abbrev pub ForkResult : ℕ → Processes World Space → Option ℕ × Processes World Space → Type 0
  ForkResult cur k r =
      (r ≡ (none, k))
      ⊎ ((i : ℕ) × (i < nproc) × (is_unused (k.life i).state ≡ true) × Forks cur i k r)

  fork_found_lem :
      (cow : Bool) (cur : ℕ) (slot : Option ℕ) (k : Processes World Space)
      (r : Option ℕ × Processes World Space)
      → find_proc nproc 0 (λ p. is_unused p.state) k.life ≡ slot
      → fork_found ops cow cur slot k ≡ ret r
      → ForkResult cur k r
  unfolding fork_found
  fork_found_lem cow cur none k r e h = inl (sym (ret_injective h))
  fork_found_lem cow cur (some i) k r e h =
      let (low, high, free) = find_proc-some nproc 0 (λ p. is_unused p.state) k.life i e in
      let (allocated, one, two) =
        >>=-eq-ret (alloc_at ops cur i k) (λ allocated. fork_at ops cow cur i allocated) h in
      inr (
        i,
        omega arith,
        free,
        fork_at_lem cow cur i k allocated r (alloc_at_lem cur i k allocated one) two,
      )

  -- Every outcome of fork().
  pub fork_lem :
      (cow : Bool) (cur : ℕ) (k : Processes World Space) (r : Option ℕ × Processes World Space)
      → fork ops cow cur k ≡ ret r
      → ForkResult cur k r
  unfolding fork
  fork_lem cow cur k r h = fork_found_lem cow cur _ k r refl h

  pub exit_lem :
      (cur status : ℕ) (k k' : Processes World Space)
      → exit ops cur status k ≡ ret k'
      → ((cur == k.initproc) ≡ false) × Becomes k k' (die cur status k) k.nextpid
  unfolding exit
  exit_lem cur status k k' h = elim (Bool-cases (cur == k.initproc)) [
    | inl init ↦ absurd (let e = sym (if_true panic _ init) ∙ h in cc)
    | inr other_one ↦
        let (rest, one, two) =
          >>=-eq-ret (close_user ops cur k.rest)
            (λ rest. ret (record k { life = die cur status k; rest = rest }))
            (sym (if_false panic _ other_one) ∙ h) in
        (
          other_one,
          subst (λ x. Becomes k x (die cur status k) k.nextpid) (ret_injective two)
              (record { lives = refl; pids = refl; init = refl }),
        )
  ]
