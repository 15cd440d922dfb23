-- ===== src/Process/Steps.antt =====
-- Project-2, kernel/proc.c: what the processes do, as a sequence of steps. Each call is one step;
-- the calls of a process hold the locks of what they change.
use cse_536_advanced_operati.Base.{
  ℕ, ◌+◌, ◌%◌, ◌^◌, ◌<◌, ◌≡◌, refl, sym, subst, inl, inr, Bool, true, Option, some, ret, arith,
}
use cse_536_advanced_operati.Process.State.{
  sleeping, runnable, process, other, is_unused, is_runnable, is_running, Life, KernelOps,
  Processes, nproc, put,
}
use cse_536_advanced_operati.Process.Table.{
  free_life, wakeup, die, Waited, returns, sleeps, fork, exit, wait, sleep, yield, dispatch, kill,
  setkilled,
}
use cse_536_advanced_operati.Process.Table.Effects.{
  Becomes, Forked, full, failed, forked, fork_lem, exit_lem,
}
use cse_536_advanced_operati.Process.Table.Waiting.{Waits, reaped, gone, asleep, wait_lem}
use cse_536_advanced_operati.Process.Table.Quiet.{
  Quiet, put-Quiet, SameParents, put-SameParents, yield-Quiet, sleep-Quiet, dispatch-Quiet,
  kill-Quiet, kill-SameParents, wakeup-Quiet, parent-wakeup,
}
use cse_536_advanced_operati.Process.Family.{IsValid, Quiet-IsValid}
use cse_536_advanced_operati.Process.Family.Slots.{
  IsValid-nextpid, free-IsValid, child-IsValid, asleep-IsValid,
}
use cse_536_advanced_operati.Process.Family.End.{die-IsValid}

-- The table behind a turn of wait().
unfoldable pub table : {World Space : Type 0} → Waited World Space → Processes World Space
table (returns pid k) = k
table (sleeps k) = k

abbrev pub with_life :
    {World Space : Type 0} → Processes World Space → (ℕ → Life) → Processes World Space
with_life k life = record k { life = life }

abbrev pub IsSound : {World Space : Type 0} → Processes World Space → Type 0
IsSound k = IsValid k.life k.nextpid k.initproc

module _ {World Space : Type 0} (ops : KernelOps World Space) where
  -- The scheduler takes a process that is runnable; the other steps are of a process that runs, but
  -- for wakeup(), kill() and setkilled(), which interrupts and other processes call. The counter of the pids
  -- does not come round to 0.
  pub data Step (k : Processes World Space) : Processes World Space → Type 0 where
    dispatches :
        (i : ℕ) → is_runnable (k.life i).state ≡ true → Step k (with_life k (dispatch i k.life))
    yields : (i : ℕ) → is_running (k.life i).state ≡ true → Step k (with_life k (yield i k.life))
    falls_asleep :
        (i chan : ℕ)
        → is_running (k.life i).state ≡ true
        → Step k (with_life k (sleep i chan k.life))
    wakes_up : (i chan : ℕ) → Step k (with_life k (wakeup i (other chan) k.life))
    kills : (pid : ℕ) → Step k (with_life k (kill pid k.life).1)
    marks : (i : ℕ) → Step k (with_life k (setkilled i k.life))
    forks :
        (cow : Bool) (i : ℕ) (r : Option ℕ × Processes World Space)
        → i < nproc
        → is_running (k.life i).state ≡ true
        → k.nextpid + 1 < 2 ^ 32
        → fork ops cow i k ≡ ret r
        → Step k r.1
    exits :
        (i status : ℕ) (k' : Processes World Space)
        → i < nproc
        → is_running (k.life i).state ≡ true
        → exit ops i status k ≡ ret k'
        → Step k k'
    waits :
        (i addr : ℕ) (w : Waited World Space)
        → i < nproc
        → is_running (k.life i).state ≡ true
        → wait ops i addr k ≡ ret w
        → Step k (table w)

  pub data Reach (k : Processes World Space) : Processes World Space → Type 0 where
    here : Reach k k
    after : {k' k'' : Processes World Space} → Reach k k' → Step k' k'' → Reach k k''

  Becomes-IsSound :
      (k k' : Processes World Space) (life : ℕ → Life) (n : ℕ)
      → Becomes k k' life n
      → IsValid life n k.initproc
      → IsSound k'
  Becomes-IsSound k k' life n b valid =
      subst (λ l. IsValid l k'.nextpid k'.initproc) (sym b.lives)
        (subst (λ m. IsValid life m k'.initproc) (sym b.pids)
          (subst (λ i. IsValid life n i) (sym b.init) valid))

  Forked-IsSound :
      (cur : ℕ) (k k' : Processes World Space) (i : ℕ) (pid : Option ℕ)
      → IsSound k
      → cur < nproc
      → is_running (k.life cur).state ≡ true
      → k.nextpid + 1 < 2 ^ 32
      → i < nproc
      → is_unused (k.life i).state ≡ true
      → Forked cur k k' i pid
      → IsSound k'
  Forked-IsSound cur k k' i _ valid small runs room si free (full e) =
      subst (λ (x : Processes World Space). IsSound x) e valid
  Forked-IsSound cur k k' i _ valid small runs room si free (failed b) =
      Becomes-IsSound k k' (put k.life i free_life) ((k.nextpid + 1) % 2 ^ 32) b (
        free-IsValid k.life ((k.nextpid + 1) % 2 ^ 32) k.initproc i si (inl free) (
          IsValid-nextpid k.life k.nextpid ((k.nextpid + 1) % 2 ^ 32) k.initproc (omega arith)
            valid))
  Forked-IsSound cur k k' i _ valid small runs room si free (forked b) =
      let child : Life = record (k.life i) {
        pid = k.nextpid;
        state = runnable;
        parent = some cur;
      } in
      Becomes-IsSound k k' (put k.life i child) ((k.nextpid + 1) % 2 ^ 32) b (
        subst (λ n. IsValid (put k.life i child) n k.initproc) (omega arith)
          (child-IsValid k.life k.nextpid k.initproc i cur si free small runs valid))

  Waits-IsSound :
      (cur : ℕ) (k : Processes World Space) (w : Waited World Space)
      → IsSound k
      → is_running (k.life cur).state ≡ true
      → Waits cur k w
      → IsSound (table w)
  unfolding table
  Waits-IsSound cur k _ valid runs (reaped i k' si dead b) =
      Becomes-IsSound k k' (put k.life i free_life) k.nextpid b
        (free-IsValid k.life k.nextpid k.initproc i si (inr (ground arith)) valid)
  Waits-IsSound cur k _ valid runs (gone k' b) = Becomes-IsSound k k' k.life k.nextpid b valid
  Waits-IsSound cur k _ valid runs (asleep k' b none_dead) =
      let p : Life = record (k.life cur) { chan = some (process cur); state = sleeping } in
      Becomes-IsSound k k' (put k.life cur p) k.nextpid b
        (asleep-IsValid k.life k.nextpid k.initproc cur runs none_dead valid)

  Quiet-IsSound :
      (k : Processes World Space) (life : ℕ → Life)
      → Quiet k.life life
      → SameParents k.life life
      → IsSound k
      → IsSound (with_life k life)
  Quiet-IsSound k life quiet parents valid =
      Quiet-IsValid k.life life k.nextpid k.initproc quiet parents valid

  fork-IsSound :
      (cow : Bool) (cur : ℕ) (k : Processes World Space) (r : Option ℕ × Processes World Space)
      → IsSound k
      → cur < nproc
      → is_running (k.life cur).state ≡ true
      → k.nextpid + 1 < 2 ^ 32
      → fork ops cow cur k ≡ ret r
      → IsSound r.1
  fork-IsSound cow cur k r valid small runs room h = elim (fork_lem ops cow cur k r h) [
    | inl e ↦ subst (λ (x : Option ℕ × Processes World Space). IsSound x.1) (sym e) valid
    | inr (i, si, free, f) ↦ Forked-IsSound cur k r.1 i r.0 valid small runs room si free f
  ]

  -- Every step keeps the table sound.
  pub Step-IsSound : {k k' : Processes World Space} → Step k k' → IsSound k → IsSound k'
  unfolding yield sleep dispatch setkilled
  Step-IsSound {k} (dispatches i h) valid =
      Quiet-IsSound k (dispatch i k.life) (dispatch-Quiet i k.life h)
        (put-SameParents k.life i _ refl) valid
  Step-IsSound {k} (yields i h) valid =
      Quiet-IsSound k (yield i k.life) (yield-Quiet i k.life h) (put-SameParents k.life i _ refl)
        valid
  Step-IsSound {k} (falls_asleep i chan h) valid =
      Quiet-IsSound k (sleep i chan k.life) (sleep-Quiet i chan k.life h)
        (put-SameParents k.life i _ refl) valid
  Step-IsSound {k} (wakes_up i chan) valid =
      Quiet-IsSound k (wakeup i (other chan) k.life) (wakeup-Quiet i (other chan) k.life)
        (parent-wakeup i (other chan) k.life) valid
  Step-IsSound {k} (kills pid) valid =
      Quiet-IsSound k (kill pid k.life).1 (kill-Quiet pid k.life) (kill-SameParents pid k.life)
        valid
  Step-IsSound {k} (marks i) valid =
      Quiet-IsSound k (setkilled i k.life)
        (put-Quiet k.life i (record (k.life i) { killed = true })
          (record { pid = refl; free = refl; dead = refl; asleep = λ c s e. (s, e) }))
        (put-SameParents k.life i _ refl) valid
  Step-IsSound {k} (forks cow i r si runs room h) valid =
      fork-IsSound cow i k r valid si runs room h
  Step-IsSound {k} (exits i status k' si runs h) valid =
      let (other_one, b) = exit_lem ops i status k k' h in
      Becomes-IsSound k k' (die i status k) k.nextpid b
        (die-IsValid i status k valid si runs (λ e. ground (arith, e)))
  Step-IsSound {k} (waits i addr w si runs h) valid =
      Waits-IsSound i k w valid runs (wait_lem ops i addr k w h)

  -- In every run of the process table from a sound one, the table is sound: the pids in use are
  -- different, every process but init has a parent that has not ended, and no process sleeps in
  -- wait() that has a child to reap.
  pub Reach-IsSound : {k k' : Processes World Space} → IsSound k → Reach k k' → IsSound k'
  Reach-IsSound valid here = valid
  Reach-IsSound valid (after before last) = Step-IsSound last (Reach-IsSound valid before)
