-- ===== src/Process/Family.antt =====
-- Project-2, kernel/proc.c: pids, parents and children, and the sleep in wait().
pub mod Exit
pub mod End
pub mod Slots
use cse_536_advanced_operati.Base.{
  ℕ, zero, suc, ◌+◌, ◌<◌, ◌≤◌, ◌≡◌, ◌≢◌, refl, sym, ap, ap₂, ◌∙◌, subst, ◌⊎◌, inl, inr, Bool, true,
  false, not, ◌&&◌, ◌||◌, Option, none, some, ltb, ◌==◌, if◌then◌else◌, arith, Bool-cases,
  Option-cases, ℕ_discrete, if_true, if_false,
}
use cse_536_advanced_operati.Process.State.{
  ProcState, unused, used, sleeping, runnable, running, zombie, pfault, Chan, process, other,
  same_chan, is_unused, is_sleeping, is_runnable, is_running, is_zombie, Life, nproc, put,
}
use cse_536_advanced_operati.Process.Table.{same_parent, is_child, is_dead_child, free_life}
use cse_536_advanced_operati.Process.Table.Quiet.{Similar, Quiet, SameParents, running_kinds}

-- A process that has not ended, and so may have children.
pub record IsLive (p : Life) : Type 0 where
  pub used : is_unused p.state ≡ false
  pub alive : is_zombie p.state ≡ false

-- The pids in use are different, and below the next one; every process but init has a parent that
-- has not ended; and a process that sleeps in wait() has no child that has ended.
pub record IsValid (life : ℕ → Life) (nextpid init : ℕ) : Type 0 where
  pub named :
      (j : ℕ)
      → j < nproc
      → is_unused (life j).state ≡ false
      → (0 < (life j).pid) × ((life j).pid < nextpid)
  pub unique :
      (i j : ℕ)
      → i < nproc
      → j < nproc
      → i ≢ j
      → is_unused (life i).state ≡ false
      → is_unused (life j).state ≡ false
      → (life i).pid ≢ (life j).pid
  pub family :
      (j : ℕ)
      → j < nproc
      → is_unused (life j).state ≡ false
      → j ≢ init
      → (p : ℕ) × ((life j).parent ≡ some p) × (p < nproc) × IsLive (life p)
  pub orphan : (j : ℕ) → j < nproc → is_unused (life j).state ≡ true → (life j).parent ≡ none
  pub init_small : init < nproc
  pub init_live : IsLive (life init)
  pub init_root : (life init).parent ≡ none
  pub awake :
      (j c : ℕ)
      → j < nproc
      → is_sleeping (life j).state ≡ true
      → (life j).chan ≡ some (process c)
      → (c ≡ j) × ((i : ℕ) → i < nproc → is_dead_child j (life i) ≡ false)

Similar-IsLive : (p q : Life) → Similar p q → IsLive p → IsLive q
Similar-IsLive p q s l = record { used = s.free ∙ l.used; alive = s.dead ∙ l.alive }

-- The invariant for a table whose processes have the same pids, parents and ends.
pub Same-IsValid :
    (life life' : ℕ → Life) (nextpid init : ℕ)
    → ((j : ℕ) → (life' j).pid ≡ (life j).pid)
    → ((j : ℕ) → is_unused (life' j).state ≡ is_unused (life j).state)
    → ((j : ℕ) → is_zombie (life' j).state ≡ is_zombie (life j).state)
    → SameParents life life'
    → ((j c : ℕ)
        → j < nproc
        → is_sleeping (life' j).state ≡ true
        → (life' j).chan ≡ some (process c)
        → (c ≡ j) × ((i : ℕ) → i < nproc → is_dead_child j (life i) ≡ false))
    → IsValid life nextpid init
    → IsValid life' nextpid init
Same-IsValid life life' nextpid init pids free dead parents awake valid = record {
  named = λ j small u.
      let (low, high) = valid.named j small (sym (free j) ∙ u) in
      let e = pids j in (omega arith, omega arith);
  unique = λ i j si sj apart ui uj e.
      valid.unique i j si sj apart (sym (free i) ∙ ui) (sym (free j) ∙ uj)
        (sym (pids i) ∙ e ∙ pids j);
  family = λ j small u apart.
      let (p, e, sp, live) = valid.family j small (sym (free j) ∙ u) apart in
      (p, parents j ∙ e, sp, record { used = free p ∙ live.used; alive = dead p ∙ live.alive });
  orphan = λ j small u. parents j ∙ valid.orphan j small (sym (free j) ∙ u);
  init_small = valid.init_small;
  init_live = record {
    used = free init ∙ valid.init_live.used;
    alive = dead init ∙ valid.init_live.alive;
  };
  init_root = parents init ∙ valid.init_root;
  awake = λ j c small s e.
      let (own, none_dead) = awake j c small s e in
      (own, λ i u. ap₂ (λ x y. same_parent x j && y) (parents i) (dead i) ∙ none_dead i u);
}

-- A step that ends no process, starts none and puts none to sleep in wait().
pub Quiet-IsValid :
    (life life' : ℕ → Life) (nextpid init : ℕ)
    → Quiet life life'
    → SameParents life life'
    → IsValid life nextpid init
    → IsValid life' nextpid init
Quiet-IsValid life life' nextpid init quiet parents valid =
    Same-IsValid life life' nextpid init (λ j. (quiet j).pid) (λ j. (quiet j).free)
      (λ j. (quiet j).dead) parents
      (λ j c small s e. let (s', e') = (quiet j).asleep c s e in valid.awake j c small s' e') valid
