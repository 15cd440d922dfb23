-- ===== src/Process/State.antt =====
-- Project-2, kernel/proc.h and kernel/proc.c: the process table. The fields by which processes wait
-- for each other stand apart from those of their memory and files.
use cse_536_advanced_operati.Base.{ℕ, Bool, true, false, Option, ◌==◌, if◌then◌else◌, Outcome}
use cse_536_advanced_operati.Cow.Groups.{Groups}

-- enum procstate.
pub data ProcState : Type 0 where
  unused used sleeping runnable running zombie pfault : ProcState

-- The address that a process sleeps on: that of a process, or any other.
pub data Chan : Type 0 where
  process other : ℕ → Chan

unfoldable pub same_chan : Chan → Chan → Bool
same_chan (process a) (process b) = a == b
same_chan (other a) (other b) = a == b
same_chan (process a) (other b) = false
same_chan (other a) (process b) = false

abbrev pub is_unused : ProcState → Bool
is_unused s = elim s [ unused ↦ true | _ ↦ false ]

abbrev pub is_sleeping : ProcState → Bool
is_sleeping s = elim s [ sleeping ↦ true | _ ↦ false ]

abbrev pub is_runnable : ProcState → Bool
is_runnable s = elim s [ runnable ↦ true | _ ↦ false ]

abbrev pub is_running : ProcState → Bool
is_running s = elim s [ running ↦ true | _ ↦ false ]

abbrev pub is_zombie : ProcState → Bool
is_zombie s = elim s [ zombie ↦ true | _ ↦ false ]

-- struct proc, the fields of its life; `parent` is the place of a process in the table.
pub record Life : Type 0 where
  pub state : ProcState
  pub chan : Option Chan
  pub killed : Bool
  pub xstate : ℕ
  pub pid : ℕ
  pub parent : Option ℕ

-- struct proc, the fields of its memory and files. `frame` is the content of the trap frame.
pub record User (Space : Type 0) : Type 0 where
  pub sz : ℕ
  pub pagetable : Option Space
  pub trapframe : Option ℕ
  pub frame : ℕ → ℕ
  pub ofile : ℕ → Option ℕ
  pub cwd : Option ℕ
  pub ondemand : Bool
  pub cow_group : Option ℕ
  pub cow_enabled : Bool

-- What the process table calls of the rest of the kernel: pages, page tables and files. The
-- argument of those that free pages is the question whether a group still shares a page.
pub record KernelOps (World Space : Type 0) : Type 0 where
  pub kalloc : World → Option (ℕ × World)
  pub kfree : ℕ → World → Outcome World
  pub proc_pagetable : ℕ → World → Outcome (Option Space × World)
  pub proc_freepagetable : (ℕ → Outcome Bool) → Space → ℕ → World → Outcome World
  pub uvmcopy : Space → Space → ℕ → World → Outcome (Option Space × World)
  pub uvmcopy_cow :
      Option ℕ → Space → Space → ℕ → Groups × World → Outcome ((Space × Space) × Groups × World)
  pub copyout : Space → ℕ → ℕ → World → Outcome (Bool × World)
  pub filedup : ℕ → World → Outcome World
  pub fileclose : ℕ → World → Outcome World
  pub idup : ℕ → World → Outcome World
  pub iput : ℕ → World → Outcome World

pub record Rest (World Space : Type 0) : Type 0 where
  pub user : ℕ → User Space
  pub groups : Groups
  pub world : World

pub record Processes (World Space : Type 0) : Type 0 where
  pub life : ℕ → Life
  pub nextpid : ℕ
  pub initproc : ℕ
  pub rest : Rest World Space

abbrev pub nproc : ℕ
nproc = 64

abbrev pub nofile : ℕ
nofile = 16

abbrev pub put {ℓ} : {A : Type ℓ} → (ℕ → A) → ℕ → A → ℕ → A
put f i v k = if k == i then v else f k

abbrev pub set_user : {World Space : Type 0} → ℕ → User Space → Rest World Space → Rest World Space
set_user i u r = record r { user = put r.user i u }
