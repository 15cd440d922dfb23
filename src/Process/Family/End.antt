-- ===== src/Process/Family/End.antt =====
-- Project-2, kernel/proc.c: the process table behind exit().
use cse_536_advanced_operati.Base.{
  ℕ, ◌<◌, ◌≡◌, ◌≢◌, refl, sym, ap, ap₂, ◌∙◌, subst, inl, inr, true, false, ◌&&◌, Option, none, some,
  arith, Bool-cases, ℕ_discrete, if_true, if_false,
}
use cse_536_advanced_operati.Process.State.{
  zombie, process, is_unused, is_sleeping, is_running, is_zombie, Life, Processes, nproc, put,
}
use cse_536_advanced_operati.Process.Table.{
  same_parent, is_dead_child, wakeup, wakeup_process, reparent, die,
}
use cse_536_advanced_operati.Process.Table.Quiet.{
  Similar-refl, Similar-trans, Quiet, wakeup-Quiet, parent-wakeup, running_kinds,
}
use cse_536_advanced_operati.Process.Family.{IsLive, IsValid}
use cse_536_advanced_operati.Process.Family.Slots.{put_cases}
use cse_536_advanced_operati.Process.Family.Exit.{
  new_parent, not_asleep, Orphaned, reparent-Orphaned,
}

wakeup_process-Quiet :
    (cur : ℕ) (parent : Option ℕ) (life : ℕ → Life) → Quiet life (wakeup_process cur parent life)
unfolding wakeup_process
wakeup_process-Quiet cur none life j = Similar-refl (life j)
wakeup_process-Quiet cur (some p) life j = wakeup-Quiet cur (process p) life j

parent-wakeup_process :
    (cur : ℕ) (parent : Option ℕ) (life : ℕ → Life) (j : ℕ)
    → (wakeup_process cur parent life j).parent ≡ (life j).parent
unfolding wakeup_process
parent-wakeup_process cur none life j = refl
parent-wakeup_process cur (some p) life j = parent-wakeup cur (process p) life j

woken_parent :
    (cur : ℕ) (parent : Option ℕ) (life : ℕ → Life) (j : ℕ)
    → j < nproc
    → j ≢ cur
    → is_sleeping (wakeup_process cur parent life j).state ≡ true
    → (wakeup_process cur parent life j).chan ≡ some (process j)
    → same_parent parent j ≡ false
unfolding wakeup_process
woken_parent cur none life j small apart asleep e = refl
woken_parent cur (some p) life j small apart asleep e = elim (ℕ_discrete p j) [
  | yes same ↦
      let Asleep : ℕ → Type 0 = λ p.
        (is_sleeping (wakeup cur (process p) life j).state ≡ true)
        × ((wakeup cur (process p) life j).chan ≡ some (process j)) in
      let (asleep', e') = subst Asleep same (asleep, e) in
      absurd (not_asleep cur j life j small apart asleep' e')
  | no d ↦ ground arith
]

module _ {World Space : Type 0} (cur status : ℕ) (k : Processes World Space)
    (valid : IsValid k.life k.nextpid k.initproc) (small : cur < nproc)
    (runs : is_running (k.life cur).state ≡ true) (apart : k.initproc ≢ cur) where
  abbrev orphaned : ℕ → Life
  orphaned = reparent nproc 0 cur k.initproc k.life

  abbrev woken : ℕ → Life
  woken = wakeup_process cur (orphaned cur).parent orphaned

  given_up : Orphaned cur k.initproc nproc 0 k.life orphaned
  given_up = reparent-Orphaned cur k.initproc nproc 0 k.life valid.init_small apart

  quiet : Quiet k.life woken
  quiet j =
      Similar-trans (k.life j) (orphaned j) (woken j) (given_up.quiet j)
        (wakeup_process-Quiet cur (orphaned cur).parent orphaned j)

  parents : (j : ℕ) → j < nproc → (woken j).parent ≡ new_parent cur k.initproc (k.life j).parent
  parents j s =
      parent-wakeup_process cur (orphaned cur).parent orphaned j
      ∙ given_up.parents j
      ∙ if_true (new_parent cur k.initproc (k.life j).parent) (k.life j).parent (ground arith)

  -- Nobody who sleeps in wait() got a child, or is the parent of the process that ends.
  no_orphan :
      (i j : ℕ)
      → i < nproc
      → same_parent (k.life i).parent cur ≡ true
      → is_sleeping (woken j).state ≡ true
      → (woken j).chan ≡ some (process j)
      → j ≢ k.initproc
  no_orphan i j s child asleep e same =
      let Asleep : ℕ → Type 0 =
        λ j. (is_sleeping (woken j).state ≡ true) × ((woken j).chan ≡ some (process j)) in
      let (asleep', e') = subst Asleep same (asleep, e) in
      let (before, e'') =
        (wakeup_process-Quiet cur (orphaned cur).parent orphaned k.initproc).asleep k.initproc
          asleep' e' in
      given_up.woken i (omega arith) (omega arith) child before e''

  not_cur :
      (j c : ℕ) → is_sleeping (woken j).state ≡ true → (woken j).chan ≡ some (process c) → j ≢ cur
  not_cur j c asleep e same =
      let (used, alive, awake) = running_kinds (k.life cur).state runs in
      let (before, e') = (quiet j).asleep c asleep e in
      let here = ap (λ x. is_sleeping (k.life x).state) (sym same) ∙ before in cc

  -- The process that ends, as a zombie.
  abbrev dead : Life
  dead = record (woken cur) { xstate = status; state = zombie }

  used_cur : is_unused (k.life cur).state ≡ false
  used_cur = (running_kinds (k.life cur).state runs).0

  is_live : (q : ℕ) → q ≢ cur → IsLive (k.life q) → IsLive (put woken cur dead q)
  is_live q d live =
      subst IsLive (sym (if_false dead (woken q) (ground arith)))
        (record { used = (quiet q).free ∙ live.used; alive = (quiet q).dead ∙ live.alive })

  -- No child of a process that sleeps in wait() is dead.
  none_dead :
      (j i : ℕ)
      → j < nproc
      → i < nproc
      → is_sleeping (woken j).state ≡ true
      → (woken j).chan ≡ some (process j)
      → is_dead_child j (put woken cur dead i) ≡ false
  none_dead j i sj si asleep e =
      let d = not_cur j j asleep e in
      put_cases woken k.nextpid k.initproc cur dead (λ i x. i < nproc → is_dead_child j x ≡ false)
        (λ si.
          ap (λ p. same_parent p j && true)
            (parent-wakeup_process cur (orphaned cur).parent orphaned cur)
          ∙ ap (λ b. b && true) (woken_parent cur (orphaned cur).parent orphaned j sj d asleep e))
        (λ i di si. elim (Bool-cases (same_parent (k.life i).parent cur)) [
          | inl child ↦
              let ne = no_orphan i j si child asleep e in
              ap (λ p. same_parent p j && is_zombie (woken i).state)
                (parents i si ∙ if_true (some k.initproc) (k.life i).parent child)
              ∙ ground arith
          | inr own ↦
              let (before, e') = (quiet j).asleep j asleep e in
              ap₂ (λ p b. same_parent p j && b)
                (parents i si ∙ if_false (some k.initproc) (k.life i).parent own) (quiet i).dead
              ∙ (valid.awake j j sj before e').1 i si
        ])
        i si

  -- The parent of a process is init now, or the one that it had.
  new_family :
      (j : ℕ)
      → j < nproc
      → is_unused (k.life j).state ≡ false
      → j ≢ k.initproc
      → (q : ℕ) × ((woken j).parent ≡ some q) × (q < nproc) × IsLive (put woken cur dead q)
  new_family j s u ne =
      let (q, e, sq, live) = valid.family j s u ne in
      elim (ℕ_discrete q cur) [
        | yes same ↦
            let child : same_parent (k.life j).parent cur ≡ true =
              ap (λ p. same_parent p cur) e ∙ ground arith in
            (
              k.initproc,
              parents j s ∙ if_true (some k.initproc) (k.life j).parent child,
              valid.init_small,
              is_live k.initproc apart valid.init_live,
            )
        | no d ↦
            let own : same_parent (k.life j).parent cur ≡ false =
              ap (λ p. same_parent p cur) e ∙ ground arith in
            (
              q,
              parents j s ∙ if_false (some k.initproc) (k.life j).parent own ∙ e,
              sq,
              is_live q d live,
            )
      ]

  pub die-IsValid : IsValid (die cur status k) k.nextpid k.initproc
  unfolding die
  die-IsValid =
      let cases = λ (P : ℕ → Life → Type 0). put_cases woken k.nextpid k.initproc cur dead P in
      let pids : (j : ℕ) → (put woken cur dead j).pid ≡ (k.life j).pid =
        cases (λ j x. x.pid ≡ (k.life j).pid) (quiet cur).pid (λ j d. (quiet j).pid) in
      let free : (j : ℕ) → is_unused (put woken cur dead j).state ≡ is_unused (k.life j).state =
        cases (λ j x. is_unused x.state ≡ is_unused (k.life j).state) (sym used_cur)
          (λ j d. (quiet j).free) in
      let parent : (j : ℕ) → (put woken cur dead j).parent ≡ (woken j).parent =
        cases (λ j x. x.parent ≡ (woken j).parent) refl (λ j d. refl) in
      record {
        named = λ j s u.
            let (low, high) = valid.named j s (sym (free j) ∙ u) in
            let e = pids j in (omega arith, omega arith);
        unique = λ i j si sj ne ui uj e.
            valid.unique i j si sj ne (sym (free i) ∙ ui) (sym (free j) ∙ uj)
              (sym (pids i) ∙ e ∙ pids j);
        family = λ j s u ne.
            let (q, e, sq, live) = new_family j s (sym (free j) ∙ u) ne in
            (q, parent j ∙ e, sq, live);
        orphan = λ j s u.
            let lone = valid.orphan j s (sym (free j) ∙ u) in
            parent j
            ∙ parents j s
            ∙ if_false (some k.initproc) (k.life j).parent (ap (λ p. same_parent p cur) lone)
            ∙ lone;
        init_small = valid.init_small;
        init_live = is_live k.initproc apart valid.init_live;
        init_root =
            parent k.initproc
            ∙ parents k.initproc valid.init_small
            ∙ if_false (some k.initproc) (k.life k.initproc).parent
                (ap (λ p. same_parent p cur) valid.init_root)
            ∙ valid.init_root;
        awake =
            cases
              (λ j x.
                (c : ℕ)
                → j < nproc
                → is_sleeping x.state ≡ true
                → x.chan ≡ some (process c)
                → (c ≡ j) × ((i : ℕ) → i < nproc → is_dead_child j (put woken cur dead i) ≡ false))
              (λ c s a e. absurd (cc))
              (λ j d c s a e.
                let (before, e') = (quiet j).asleep c a e in
                let own = (valid.awake j c s before e').0 in
                (own, λ i si. none_dead j i s si a (e ∙ ap (λ x. some (process x)) own)));
      }

  -- The process that ends is a dead child of its parent.
  pub die_dead_child :
      (q : ℕ)
      → (k.life cur).parent ≡ some q
      → q ≢ cur
      → is_dead_child q (die cur status k cur) ≡ true
  unfolding die
  die_dead_child q e d =
      let own : same_parent (k.life cur).parent cur ≡ false =
        ap (λ p. same_parent p cur) e ∙ ground arith in
      let parent = parents cur small ∙ if_false (some k.initproc) (k.life cur).parent own ∙ e in
      ap (λ x. is_dead_child q x) (if_true dead (woken cur) (ground arith))
      ∙ ap (λ p. same_parent p q && true) parent
      ∙ ground arith
