-- ===== src/Process/Wait.antt =====
-- Project-2, kernel/proc.c: a parent that waits for a child that has called exit().
use cse_536_advanced_operati.Base.{
  ℕ, ◌<◌, ◌≡◌, ◌≢◌, refl, sym, ap, ◌∙◌, true, Option, none, some, ret, >>=-eq-ret, ret_injective,
  arith,
}
use cse_536_advanced_operati.Process.State.{is_running, Life, KernelOps, Processes, nproc, put}
use cse_536_advanced_operati.Process.Table.{
  find_proc, free_life, freeproc, exit, Waited, returns, copy_status, reap_copied, reap,
  is_dead_child, wait_found, wait,
}
use cse_536_advanced_operati.Process.Table.Effects.{
  find_proc-some, find_proc-none, Becomes, freeproc_lem, exit_lem,
}
use cse_536_advanced_operati.Process.Family.End.{die_dead_child}
use cse_536_advanced_operati.Process.Steps.{IsSound}

-- A dead child is reaped: its pid is returned and its slot is free.
pub record IsReaped {World Space : Type 0} (cur i : ℕ) (k k' : Processes World Space)
    (w : Waited World Space) : Type 0 where
  pub small : i < nproc
  pub dead : is_dead_child cur (k.life i) ≡ true
  pub pid : w ≡ returns (some (k.life i).pid) k'
  pub table : Becomes k k' (put k.life i free_life) k.nextpid

module _ {World Space : Type 0} (ops : KernelOps World Space) where
  abbrev Reaps : ℕ → Processes World Space → Waited World Space → Type 0
  Reaps cur k w = (i : ℕ) × (k' : Processes World Space) × IsReaped cur i k k' w

  reap-IsReaped :
      (cur i : ℕ) (k : Processes World Space) (w : Waited World Space)
      → i < nproc
      → is_dead_child cur (k.life i) ≡ true
      → reap ops cur i 0 k ≡ ret w
      → Reaps cur k w
  unfolding reap copy_status reap_copied
  reap-IsReaped cur i k w small dead h =
      let (k', one, two) =
        >>=-eq-ret (freeproc ops cur i k) (λ freed. ret (returns (some (k.life i).pid) freed)) h in
      (
        i,
        k',
        record {
          small = small;
          dead = dead;
          pid = sym (ret_injective two);
          table = freeproc_lem ops cur i k k' one;
        },
      )

  wait_found-IsReaped :
      (cur j : ℕ) (slot : Option ℕ) (k : Processes World Space) (w : Waited World Space)
      → j < nproc
      → is_dead_child cur (k.life j) ≡ true
      → find_proc nproc 0 (is_dead_child cur) k.life ≡ slot
      → wait_found ops cur 0 slot k ≡ ret w
      → Reaps cur k w
  unfolding wait_found
  wait_found-IsReaped cur j none k w small dead e h =
      let lone =
        find_proc-none nproc 0 (is_dead_child cur) k.life j e (omega arith) (omega arith) in
      absurd (cc)
  wait_found-IsReaped cur j (some i) k w small dead e h =
      let (low, high, dead_i) = find_proc-some nproc 0 (is_dead_child cur) k.life i e in
      reap-IsReaped cur i k w (omega arith) dead_i h

  -- Once a child has called exit(), a turn of its parent's wait() with no address for the status
  -- does not sleep: where it returns, it has reaped a child that has ended.
  pub wait-exit :
      (cur status q : ℕ) (k k' : Processes World Space) (w : Waited World Space)
      → IsSound k
      → cur < nproc
      → is_running (k.life cur).state ≡ true
      → (k.life cur).parent ≡ some q
      → q ≢ cur
      → exit ops cur status k ≡ ret k'
      → wait ops q 0 k' ≡ ret w
      → (i : ℕ) × (k'' : Processes World Space) × IsReaped q i k' k'' w
  unfolding wait
  wait-exit cur status q k k' w valid small runs e d ended h =
      let (other_one, b) = exit_lem ops cur status k k' ended in
      let dead : is_dead_child q (k'.life cur) ≡ true =
        ap (λ (l : ℕ → Life). is_dead_child q (l cur)) b.lives
        ∙ die_dead_child cur status k valid small runs (λ e. ground (arith, e)) q e d in
      wait_found-IsReaped q cur _ k' w small dead refl h
