-- ===== src/Process/Table/Waiting.antt =====
-- Project-2, kernel/proc.c: what a turn of wait() does to the lives of the processes.
use cse_536_advanced_operati.Base.{
  ℕ, ◌<◌, ◌≡◌, refl, sym, ap, ◌∙◌, subst, inl, inr, Bool, true, false, not, ◌||◌, Option, none,
  some, ◌==◌, ret, >>=-holds, >>=-eq-ret, ret_injective, arith, Bool-cases, if_true, if_false,
}
use cse_536_advanced_operati.Process.State.{
  sleeping, process, Life, KernelOps, Processes, nproc, put,
}
use cse_536_advanced_operati.Process.Table.{
  find_proc, free_life, freeproc, reap_copied, is_dead_child, wait_found, copy_to, Waited, returns,
  sleeps, copy_status, reap, is_child, is_some, wait,
}
use cse_536_advanced_operati.Process.Table.Effects.{
  find_proc-some, find_proc-none, Becomes, freeproc_lem,
}

-- The table behind a turn of wait(): a dead child is free, or nothing has changed, or the caller
-- sleeps and no child is dead.
pub data Waits {World Space : Type 0} (cur : ℕ) (k : Processes World Space)
    : Waited World Space → Type 0 where
  reaped :
      (i : ℕ) (k' : Processes World Space)
      → i < nproc
      → is_dead_child cur (k.life i) ≡ true
      → Becomes k k' (put k.life i free_life) k.nextpid
      → Waits cur k (returns (some (k.life i).pid) k')
  gone :
      (k' : Processes World Space) → Becomes k k' k.life k.nextpid → Waits cur k (returns none k')
  asleep :
      (k' : Processes World Space)
      → Becomes k k'
          (put k.life cur (record (k.life cur) { chan = some (process cur); state = sleeping }))
          k.nextpid
      → ((j : ℕ) → j < nproc → is_dead_child cur (k.life j) ≡ false)
      → Waits cur k (sleeps k')

module _ {World Space : Type 0} (ops : KernelOps World Space) where
  copy_to_lem :
      (space : Option Space) (addr status : ℕ) (k : Processes World Space)
      (r : Bool × Processes World Space)
      → copy_to ops space addr status k ≡ ret r
      → Becomes k r.1 k.life k.nextpid
  unfolding copy_to
  copy_to_lem none addr status k r h = absurd (cc)
  copy_to_lem (some space) addr status k r h =
      >>=-holds (λ x. Becomes k x.1 k.life k.nextpid) (ops.copyout space addr status k.rest.world)
        (λ copied. ret (copied.0, record k { rest = record k.rest { world = copied.1 } })) h
        (λ copied one two.
          subst (λ x. Becomes k x.1 k.life k.nextpid) (ret_injective two)
            (record { lives = refl; pids = refl; init = refl }))

  copy_status_lem :
      (cur i addr : ℕ) (k : Processes World Space) (r : Bool × Processes World Space)
      → copy_status ops cur i addr k ≡ ret r
      → Becomes k r.1 k.life k.nextpid
  unfolding copy_status
  copy_status_lem cur i addr k r h = elim (Bool-cases (addr == 0)) [
    | inl zero_one ↦
        subst (λ x. Becomes k x.1 k.life k.nextpid) (ret_injective (sym (if_true _ _ zero_one) ∙ h))
          (record { lives = refl; pids = refl; init = refl })
    | inr more ↦
        copy_to_lem (k.rest.user cur).pagetable addr (k.life i).xstate k r
          (sym (if_false _ _ more) ∙ h)
  ]

  reap_copied_lem :
      (cur i : ℕ) (ok : Bool) (k k' : Processes World Space) (w : Waited World Space)
      → i < nproc
      → is_dead_child cur (k.life i) ≡ true
      → Becomes k k' k.life k.nextpid
      → reap_copied ops cur i ok k' ≡ ret w
      → Waits cur k w
  unfolding reap_copied
  reap_copied_lem cur i true k k' w small dead same h =
      let (freed, one, two) =
        >>=-eq-ret (freeproc ops cur i k') (λ freed. ret (returns (some (k'.life i).pid) freed))
          h in
      let after = freeproc_lem ops cur i k' freed one in
      let pid : (k.life i).pid ≡ (k'.life i).pid =
        ap (λ (l : ℕ → Life). (l i).pid) (sym same.lives) in
      subst (Waits cur k) (ap (λ p. returns (some p) freed) pid ∙ ret_injective two) (
        reaped i freed small dead (record {
          lives = after.lives ∙ ap (λ l. put l i free_life) same.lives;
          pids = after.pids ∙ same.pids;
          init = after.init ∙ same.init;
        }))
  reap_copied_lem cur i false k k' w small dead same h =
      subst (Waits cur k) (ret_injective h) (gone k' same)

  wait_found_lem :
      (cur addr : ℕ) (slot : Option ℕ) (k : Processes World Space) (w : Waited World Space)
      → find_proc nproc 0 (is_dead_child cur) k.life ≡ slot
      → wait_found ops cur addr slot k ≡ ret w
      → Waits cur k w
  unfolding wait_found reap
  wait_found_lem cur addr (some i) k w e h =
      let (low, high, dead) = find_proc-some nproc 0 (is_dead_child cur) k.life i e in
      let (copied, one, two) =
        >>=-eq-ret (copy_status ops cur i addr k)
          (λ copied. reap_copied ops cur i copied.0 copied.1) h in
      reap_copied_lem cur i copied.0 k copied.1 w (omega arith) dead
        (copy_status_lem cur i addr k copied one) two
  wait_found_lem cur addr none k w e h =
      elim (Bool-cases
        (not (is_some (find_proc nproc 0 (is_child cur) k.life)) || (k.life cur).killed)) [
          | inl alone ↦
              subst (Waits cur k) (ret_injective (sym (if_true _ _ alone) ∙ h))
                (gone k (record { lives = refl; pids = refl; init = refl }))
          | inr more ↦ subst (Waits cur k) (ret_injective (sym (if_false _ _ more) ∙ h)) (
              asleep
                (record k {
                  life =
                      put k.life cur
                        (record (k.life cur) { chan = some (process cur); state = sleeping });
                })
                (record { lives = refl; pids = refl; init = refl })
                (λ j u.
                  find_proc-none nproc 0 (is_dead_child cur) k.life j e (omega arith)
                    (omega arith)))
        ]

  -- Every outcome of a turn of wait().
  pub wait_lem :
      (cur addr : ℕ) (k : Processes World Space) (w : Waited World Space)
      → wait ops cur addr k ≡ ret w
      → Waits cur k w
  unfolding wait
  wait_lem cur addr k w h = wait_found_lem cur addr _ k w refl h
