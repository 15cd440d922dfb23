-- ===== src/Process/Tests.antt =====
-- Project-2, kernel/proc.c: runs on a small table, and the theorems at inputs where their hypotheses
-- hold. The memory of the rest of the kernel is a number of free pages.
use cse_536_advanced_operati.Base.{
  ℕ, zero, suc, ◌<◌, ◌≡◌, ◌≢◌, refl, sym, ap, ◌∙◌, subst, Bool, true, false, Option, none, some,
  Outcome, ret, panic, ◌>>=◌, arith, ℕ_discrete, if_false,
}
use cse_536_advanced_operati.Cow.Groups.{
  Groups, incr_cow_group_count, decr_cow_group_count, get_cow_group, find_group,
}
use cse_536_advanced_operati.Process.State.{
  running, same_chan, is_unused, is_sleeping, is_runnable, is_running, Life, User, KernelOps, Rest,
  Processes, put,
}
use cse_536_advanced_operati.Process.User.{
  free_frame, free_space, free_user, alloc_space, alloc_frame, alloc_user, dup_files, copied_plain,
  copy_plain, copy_spaces, copy_memory, hold_dir, put_dir, inherit, close_files, close_user,
}
use cse_536_advanced_operati.Process.Table.{
  find_proc, free_life, freeproc, named_at, keep_or_free, alloc_at, start_child, start_or_free,
  fork_at, fork_found, fork, die, exit, reparent, wakeup, wakeup_process, Waited, sleeps,
  copy_status, reap_copied, reap, wait_found, wait, dispatch,
}
use cse_536_advanced_operati.Process.Steps.{
  IsSound, with_life, dispatches, forks, Reach, here, after, Reach-IsSound,
}
use cse_536_advanced_operati.Process.Wait.{IsReaped, wait-exit}
use cse_536_advanced_operati.Process.Recycle.{free_user_twice}

abbrev spare_page : ℕ → Option (ℕ × ℕ)
spare_page zero = none
spare_page (suc free) = some (free, free)

abbrev small_kernel : KernelOps ℕ ℕ
small_kernel = record {
  kalloc = spare_page;
  kfree = λ page free. ret (suc free);
  proc_pagetable = λ page free. ret (some page, free);
  proc_freepagetable = λ kept space sz free. ret free;
  uvmcopy = λ old new sz free. ret (some new, free);
  uvmcopy_cow = λ group old new sz w. incr_cow_group_count group w.0 >>= λ gs.
      incr_cow_group_count group gs >>= λ counted. ret ((old, new), counted, w.1);
  copyout = λ space addr status free. ret (true, free);
  filedup = λ file free. ret free;
  fileclose = λ file free. ret free;
  idup = λ dir free. ret free;
  iput = λ dir free. ret free;
}

abbrev no_user : User ℕ
no_user = record {
  sz = 0;
  pagetable = none;
  trapframe = none;
  frame = λ i. 0;
  ofile = λ fd. none;
  cwd = none;
  ondemand = false;
  cow_group = some 0;
  cow_enabled = false;
}

abbrev init_user : User ℕ
init_user = record no_user { sz = 4096; pagetable = some 7; trapframe = some 8; cwd = some 1 }

abbrev init_life : Life
init_life = record free_life { state = running; pid = 1 }

abbrev no_groups : Groups
no_groups i = record { group = none; shmem = λ j. 0; count = 0 }

abbrev booted : Processes ℕ ℕ
booted = record {
  life = put (λ i. free_life) 0 init_life;
  nextpid = 2;
  initproc = 0;
  rest = record { user = put (λ i. no_user) 0 init_user; groups = no_groups; world = 6 };
}

elsewhere : (j : ℕ) → j ≢ 0 → booted.life j ≡ free_life
elsewhere j d = if_false init_life free_life (ground arith)

only_init : (j : ℕ) → is_unused (booted.life j).state ≡ false → j ≡ 0
only_init j u = elim (ℕ_discrete j 0) [
  | yes e ↦ e
  | no d ↦ absurd (let e = ap (λ (x : Life). is_unused x.state) (elsewhere j d) in cc)
]

parentless : (j : ℕ) → (booted.life j).parent ≡ none
parentless j = elim (ℕ_discrete j 0) [
  | yes e ↦ ap (λ x. (booted.life x).parent) e
  | no d ↦ ap (λ (x : Life). x.parent) (elsewhere j d)
]

booted-IsSound : IsSound booted
booted-IsSound = record {
  named = λ j s u.
      subst (λ x. (0 < (booted.life x).pid) × ((booted.life x).pid < 2)) (sym (only_init j u))
        (let t : (0 < 1) × (1 < 2) = omega arith in t);
  unique = λ i j si sj d ui uj. absurd (d (only_init i ui ∙ sym (only_init j uj)));
  family = λ j s u d. absurd (d (only_init j u));
  orphan = λ j s u. parentless j;
  init_small = omega arith;
  init_live = record { used = refl; alive = refl };
  init_root = refl;
  awake = λ j c s a e. elim (ℕ_discrete j 0) [
    | yes e ↦ absurd (let h = ap (λ x. is_sleeping (booted.life x).state) (sym e) ∙ a in cc)
    | no d ↦ absurd (let h = sym (ap (λ (x : Life). is_sleeping x.state) (elsewhere j d)) ∙ a in cc)
  ];
}

-- The value of a routine that returns.
abbrev result : {A : Type 0} → Outcome A → A → A
result (ret a) d = a
result panic d = d

abbrev forked_once : Option ℕ × Processes ℕ ℕ
forked_once = result (fork small_kernel false 0 booted) (none, booted)

fork-booted : fork small_kernel false 0 booted ≡ ret forked_once
unfolding fork fork_found find_proc alloc_at alloc_user alloc_frame alloc_space keep_or_free
    named_at fork_at copy_memory copy_spaces copy_plain copied_plain start_or_free inherit dup_files
    hold_dir start_child
fork-booted = refl

fork_pid : forked_once.0 ≡ some 2
unfolding fork fork_found find_proc alloc_at alloc_user alloc_frame alloc_space keep_or_free
    named_at fork_at copy_memory copy_spaces copy_plain copied_plain start_or_free inherit dup_files
    hold_dir start_child
fork_pid = refl

-- Init runs and its child 1, which the scheduler takes.
abbrev two_run : Processes ℕ ℕ
two_run = with_life forked_once.1 (dispatch 1 forked_once.1.life)

child_runnable : is_runnable (forked_once.1.life 1).state ≡ true
unfolding fork fork_found find_proc alloc_at alloc_user alloc_frame alloc_space keep_or_free
    named_at fork_at copy_memory copy_spaces copy_plain copied_plain start_or_free inherit dup_files
    hold_dir start_child
child_runnable = refl

two_run-Reach : Reach small_kernel booted two_run
two_run-Reach =
    after (after here (forks false 0 forked_once (omega arith) refl (omega arith) fork-booted))
      (dispatches 1 child_runnable)

Reach-IsSound_example : IsSound two_run
Reach-IsSound_example = Reach-IsSound small_kernel booted-IsSound two_run-Reach

child_runs : is_running (two_run.life 1).state ≡ true
unfolding dispatch
child_runs = refl

child_parent : (two_run.life 1).parent ≡ some 0
unfolding dispatch fork fork_found find_proc alloc_at alloc_user alloc_frame alloc_space
    keep_or_free named_at fork_at copy_memory copy_spaces copy_plain copied_plain start_or_free
    inherit dup_files hold_dir start_child
child_parent = refl

abbrev one_ended : Processes ℕ ℕ
one_ended = result (exit small_kernel 1 3 two_run) two_run

exit_child : exit small_kernel 1 3 two_run ≡ ret one_ended
unfolding exit close_user close_files put_dir dispatch fork fork_found find_proc alloc_at alloc_user
    alloc_frame alloc_space keep_or_free named_at fork_at copy_memory copy_spaces copy_plain
    copied_plain start_or_free inherit dup_files hold_dir start_child
exit_child = refl

abbrev waited : Waited ℕ ℕ
waited = result (wait small_kernel 0 0 one_ended) (sleeps one_ended)

wait_init : wait small_kernel 0 0 one_ended ≡ ret waited
unfolding wait wait_found reap copy_status reap_copied freeproc free_user free_frame free_space
    find_proc die reparent wakeup_process wakeup same_chan exit close_user close_files put_dir
    dispatch fork fork_found alloc_at alloc_user alloc_frame alloc_space keep_or_free named_at
    fork_at copy_memory copy_spaces copy_plain copied_plain start_or_free inherit dup_files hold_dir
    start_child
wait_init = refl

wait-exit_example : (i : ℕ) × (k : Processes ℕ ℕ) × IsReaped 0 i one_ended k waited
wait-exit_example =
    wait-exit small_kernel 1 3 0 two_run one_ended waited
      (Reach-IsSound small_kernel booted-IsSound two_run-Reach) (omega arith) child_runs
      child_parent (omega arith) exit_child wait_init

-- Process 3 and its parent share their pages in group 7, which counts two; then 3 is freed, and the
-- next child that it is the slot of has its own pages.
abbrev shared : Rest ℕ ℕ
shared = record {
  user =
      put (put (λ i. no_user) 0 init_user) 3
        (record init_user { cow_group = some 7; cow_enabled = true });
  groups = put no_groups 0 (record { group = some 7; shmem = λ j. 0; count = 2 });
  world = 6;
}

abbrev once_freed : Rest ℕ ℕ
once_freed = result (free_user small_kernel 0 3 shared) shared

abbrev made_again : Bool × Rest ℕ ℕ
made_again = result (alloc_user small_kernel 3 once_freed) (false, shared)

abbrev with_pages : Bool × Rest ℕ ℕ
with_pages = result (copy_memory small_kernel false 0 3 9 made_again.1) (false, shared)

abbrev started : Rest ℕ ℕ
started = result (inherit small_kernel 0 3 with_pages.1) shared

abbrev files_closed : Rest ℕ ℕ
files_closed = result (close_user small_kernel 3 started) shared

abbrev twice_freed : Rest ℕ ℕ
twice_freed = result (free_user small_kernel 0 3 files_closed) shared

freed_once : free_user small_kernel 0 3 shared ≡ ret once_freed
unfolding free_user free_frame free_space decr_cow_group_count get_cow_group find_group
freed_once = refl

allocated_again : alloc_user small_kernel 3 once_freed ≡ ret (true, made_again.1)
unfolding alloc_user alloc_frame alloc_space free_user free_frame free_space decr_cow_group_count
    get_cow_group find_group
allocated_again = refl

copied_pages : copy_memory small_kernel false 0 3 9 made_again.1 ≡ ret (true, with_pages.1)
unfolding copy_memory copy_spaces copy_plain copied_plain alloc_user alloc_frame alloc_space
    free_user free_frame free_space decr_cow_group_count get_cow_group find_group
copied_pages = refl

inherited_rest : inherit small_kernel 0 3 with_pages.1 ≡ ret started
unfolding inherit dup_files hold_dir copy_memory copy_spaces copy_plain copied_plain alloc_user
    alloc_frame alloc_space free_user free_frame free_space decr_cow_group_count get_cow_group
    find_group
inherited_rest = refl

closed_files : close_user small_kernel 3 started ≡ ret files_closed
unfolding close_user close_files put_dir inherit dup_files hold_dir copy_memory copy_spaces
    copy_plain copied_plain alloc_user alloc_frame alloc_space free_user free_frame free_space
    decr_cow_group_count get_cow_group find_group
closed_files = refl

freed_again : free_user small_kernel 0 3 files_closed ≡ ret twice_freed
unfolding close_user close_files put_dir inherit dup_files hold_dir copy_memory copy_spaces
    copy_plain copied_plain alloc_user alloc_frame alloc_space free_user free_frame free_space
    decr_cow_group_count get_cow_group find_group
freed_again = refl

-- The count is 0, though the parent still shares its pages.
count_zero : (twice_freed.groups 0).count ≡ 0
unfolding close_user close_files put_dir inherit dup_files hold_dir copy_memory copy_spaces
    copy_plain copied_plain alloc_user alloc_frame alloc_space free_user free_frame free_space
    decr_cow_group_count get_cow_group find_group
count_zero = refl

free_user_twice_example :
    (decr_cow_group_count (some 7) shared.groups >>= decr_cow_group_count (some 7))
    ≡ ret twice_freed.groups
free_user_twice_example =
    free_user_twice small_kernel 0 0 3 9 0 shared once_freed made_again.1 with_pages.1 started
      files_closed twice_freed refl freed_once allocated_again copied_pages inherited_rest
      closed_files freed_again
