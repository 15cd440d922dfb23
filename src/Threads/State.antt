-- ===== src/Threads/State.antt =====
-- Project-3, user/ulthread.h and user/ulthread.c: the table of user-level threads and the calls that
-- create, yield and destroy a thread. Text that is only printed is left out.
use cse_536_advanced_operati.Base.{
  ℕ, zero, suc, ◌+◌, Bool, true, false, Option, none, some, ◌==◌, if◌then◌else◌,
}

-- MAXULTHREADS
abbrev pub max_threads : ℕ
max_threads = 100

pub data ThreadState : Type 0 where
  free runnable yielded : ThreadState

pub data Algorithm : Type 0 where
  round_robin priority_first fcfs : Algorithm

-- struct context: the return address, the stack pointer and the saved registers s0 to s11.
pub record Context : Type 0 where
  pub ra : ℕ
  pub sp : ℕ
  pub s : ℕ → ℕ

-- ulthread. The id is `none` for -1; the priority is the int plus 2 ^ 31, so that the order of the
-- ints is that of the numbers.
pub record Thread : Type 0 where
  pub tid : Option ℕ
  pub state : ThreadState
  pub priority : ℕ
  pub context : Context
  pub time_created : ℕ

-- The globals; `before` is the priority that a read of ul_thread[-1] gives.
pub record Library : Type 0 where
  pub ul_thread : ℕ → Thread
  pub algorithm : Algorithm
  pub current_tid : ℕ
  pub prev_tid : ℕ
  pub before : ℕ

abbrev pub is_runnable : Thread → Bool
is_runnable t = elim t.state [ runnable ↦ true | _ ↦ false ]

abbrev pub is_yielded : Thread → Bool
is_yielded t = elim t.state [ yielded ↦ true | _ ↦ false ]

abbrev pub is_free : Thread → Bool
is_free t = elim t.state [ free ↦ true | _ ↦ false ]

abbrev pub has_no_id : Thread → Bool
has_no_id t = elim t.tid [ none ↦ true | some _ ↦ false ]

abbrev pub put_thread : (ℕ → Thread) → ℕ → Thread → ℕ → Thread
put_thread ts i t k = if k == i then t else ts k

abbrev pub set_state : (ℕ → Thread) → ℕ → ThreadState → ℕ → Thread
set_state ts i x = put_thread ts i (record (ts i) { state = x })

unfoldable pub get_current_tid : Library → ℕ
get_current_tid l = l.current_tid

-- The loop gives every slot the id -1; then slot 0 is the scheduler's.
unfoldable pub ulthread_init : Algorithm → Library → Library
ulthread_init schedalgo l = record l {
  ul_thread = λ k.
      if k == 0
      then record (l.ul_thread k) { state = runnable; tid = some 0 }
      else record (l.ul_thread k) { tid = none };
  algorithm = schedalgo;
}

-- The search for a slot, from slot `i` on: slot 0 where there is none.
unfoldable pub find_slot : ℕ → ℕ → (ℕ → Thread) → ℕ
find_slot zero i ts = 0
find_slot (suc rounds) i ts =
    let rest = find_slot rounds (i + 1) ts in if has_no_id (ts i) then i else rest

-- The registers s0 to s5 hold the arguments, and the others 0.
abbrev pub new_context : ℕ → ℕ → (ℕ → ℕ) → Context
new_context start stack args = record {
  ra = start;
  sp = stack;
  s = λ k. elim k [
    | zero ↦ args 0
    | suc zero ↦ args 1
    | suc (suc zero) ↦ args 2
    | suc (suc (suc zero)) ↦ args 3
    | suc (suc (suc (suc zero))) ↦ args 4
    | suc (suc (suc (suc (suc zero)))) ↦ args 5
    | _ ↦ 0
  ];
}

unfoldable pub ulthread_create : ℕ → ℕ → (ℕ → ℕ) → ℕ → Library → Library
ulthread_create start stack args priority l =
    let index = find_slot 99 1 l.ul_thread in
    record l {
      ul_thread = put_thread l.ul_thread index (record (l.ul_thread index) {
        tid = some index;
        state = runnable;
        priority = priority;
        context = new_context start stack args;
      });
    }

-- ulthread_yield(), up to the switch to the scheduler's context.
unfoldable pub ulthread_yield : Library → Library
ulthread_yield l = record l { ul_thread = set_state l.ul_thread l.current_tid yielded }

-- ulthread_destroy(), up to the switch. `false` says that it returns to its caller.
unfoldable pub ulthread_destroy : Library → Bool × Library
ulthread_destroy l = if l.current_tid == 0 then (false, l) else (
  true,
  record l {
    ul_thread =
        put_thread l.ul_thread l.current_tid
          (record (l.ul_thread l.current_tid) { state = free; tid = none });
    prev_tid = l.current_tid;
  },
)
