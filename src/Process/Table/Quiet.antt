-- ===== src/Process/Table/Quiet.antt =====
-- Project-2, kernel/proc.c: the steps that end no process, start none and put none to sleep in
-- wait(), among them wakeup().
use cse_536_advanced_operati.Base.{
  ℕ, ◌<◌, ◌≡◌, ◌≢◌, refl, sym, ap, ◌∙◌, subst, inl, inr, true, false, not, ◌&&◌, none, some, ltb,
  ◌==◌, arith, Bool-cases, Option-cases, ℕ_discrete, if_true, if_false,
}
use cse_536_advanced_operati.Process.State.{
  ProcState, unused, used, sleeping, runnable, running, zombie, pfault, Chan, process, other,
  same_chan, is_unused, is_sleeping, is_runnable, is_running, is_zombie, Life, nproc, put,
}
use cse_536_advanced_operati.Process.Table.{
  find_proc, wakes, wakeup, sleep, yield, dispatch, kill_at, kill,
}

-- Process `q` is `p` with another state and channel, and no longer asleep on a process if it was not.
pub record Similar (p q : Life) : Type 0 where
  pub pid : q.pid ≡ p.pid
  pub free : is_unused q.state ≡ is_unused p.state
  pub dead : is_zombie q.state ≡ is_zombie p.state
  pub asleep :
      (c : ℕ)
      → is_sleeping q.state ≡ true
      → q.chan ≡ some (process c)
      → (is_sleeping p.state ≡ true) × (p.chan ≡ some (process c))

abbrev pub Quiet : (ℕ → Life) → (ℕ → Life) → Type 0
Quiet life life' = (j : ℕ) → Similar (life j) (life' j)

pub Similar-refl : (p : Life) → Similar p p
Similar-refl p = record { pid = refl; free = refl; dead = refl; asleep = λ c one two. (one, two) }

pub Similar-trans : (p q r : Life) → Similar p q → Similar q r → Similar p r
Similar-trans p q r one two = record {
  pid = two.pid ∙ one.pid;
  free = two.free ∙ one.free;
  dead = two.dead ∙ one.dead;
  asleep = λ c s e. let (s', e') = two.asleep c s e in one.asleep c s' e';
}

-- A process in one of these states neither is free nor dead.
pub asleep_kinds :
    (s : ProcState) → is_sleeping s ≡ true → (is_unused s ≡ false) × (is_zombie s ≡ false)
asleep_kinds sleeping h = (refl, refl)
asleep_kinds unused h = absurd (cc)
asleep_kinds used h = absurd (cc)
asleep_kinds runnable h = absurd (cc)
asleep_kinds running h = absurd (cc)
asleep_kinds zombie h = absurd (cc)
asleep_kinds pfault h = absurd (cc)

pub runnable_kinds :
    (s : ProcState) → is_runnable s ≡ true → (is_unused s ≡ false) × (is_zombie s ≡ false)
runnable_kinds runnable h = (refl, refl)
runnable_kinds unused h = absurd (cc)
runnable_kinds used h = absurd (cc)
runnable_kinds sleeping h = absurd (cc)
runnable_kinds running h = absurd (cc)
runnable_kinds zombie h = absurd (cc)
runnable_kinds pfault h = absurd (cc)

pub running_kinds :
    (s : ProcState)
    → is_running s ≡ true
    → (is_unused s ≡ false) × (is_zombie s ≡ false) × (is_sleeping s ≡ false)
running_kinds running h = (refl, refl, refl)
running_kinds unused h = absurd (cc)
running_kinds used h = absurd (cc)
running_kinds sleeping h = absurd (cc)
running_kinds runnable h = absurd (cc)
running_kinds zombie h = absurd (cc)
running_kinds pfault h = absurd (cc)

-- One process changes.
pub put-Quiet :
    (life : ℕ → Life) (i : ℕ) (p : Life) → Similar (life i) p → Quiet life (put life i p)
put-Quiet life i p h j = elim (ℕ_discrete j i) [
  | yes e ↦
      subst (λ x. Similar (life j) x) (sym (if_true p (life j) (ground arith)))
        (subst (λ x. Similar (life x) p) (sym e) h)
  | no d ↦
      subst (λ x. Similar (life j) x) (sym (if_false p (life j) (ground arith)))
        (Similar-refl (life j))
]

-- The processes behind a wakeup().
pub wakeup-Quiet : (cur : ℕ) (chan : Chan) (life : ℕ → Life) → Quiet life (wakeup cur chan life)
unfolding wakeup
wakeup-Quiet cur chan life j =
    let p = life j in
    elim (Bool-cases (ltb j nproc && not (j == cur) && is_sleeping p.state && wakes p.chan chan)) [
      | inl woken ↦
          let (free, dead) = asleep_kinds p.state (ground arith) in
          subst (λ x. Similar p x) (sym (if_true (record p { state = runnable }) p woken))
            (record { pid = refl; free = sym free; dead = sym dead; asleep = λ c s e. absurd (cc) })
      | inr still ↦
          subst (λ x. Similar p x) (sym (if_false (record p { state = runnable }) p still))
            (Similar-refl p)
    ]

pub parent-wakeup :
    (cur : ℕ) (chan : Chan) (life : ℕ → Life) (j : ℕ)
    → (wakeup cur chan life j).parent ≡ (life j).parent
unfolding wakeup
parent-wakeup cur chan life j = ground arith

-- Nobody else sleeps on the channel behind a wakeup().
pub wakeup-wakes :
    (cur : ℕ) (chan : Chan) (life : ℕ → Life) (j : ℕ)
    → j < nproc
    → j ≢ cur
    → is_sleeping (wakeup cur chan life j).state ≡ true
    → wakes (wakeup cur chan life j).chan chan ≡ false
unfolding wakeup
wakeup-wakes cur chan life j small apart asleep =
    let p = life j in
    elim (Bool-cases (ltb j nproc && not (j == cur) && is_sleeping p.state && wakes p.chan chan)) [
      | inl woken ↦ absurd (
          let e =
            sym (
              ap (λ (x : Life). is_sleeping x.state)
                (if_true (record p { state = runnable }) p woken))
            ∙ asleep in
          cc)
      | inr still ↦
          let same : wakeup cur chan life j ≡ p =
            if_false (record p { state = runnable }) p still in
          let here : is_sleeping p.state ≡ true =
            ap (λ (x : Life). is_sleeping x.state) (sym same) ∙ asleep in
          ap (λ (x : Life). wakes x.chan chan) same ∙ ground arith
    ]

pub same_chan_self : (c : Chan) → same_chan c c ≡ true
unfolding same_chan
same_chan_self (process a) = ground arith
same_chan_self (other a) = ground arith

-- A process that is not running any more: it yields, sleeps on another channel, or runs again.
pub yield-Quiet :
    (cur : ℕ) (life : ℕ → Life) → is_running (life cur).state ≡ true → Quiet life (yield cur life)
unfolding yield
yield-Quiet cur life h =
    let (free, dead, awake) = running_kinds (life cur).state h in
    put-Quiet life cur (record (life cur) { state = runnable })
      (record { pid = refl; free = sym free; dead = sym dead; asleep = λ c s e. absurd (cc) })

pub sleep-Quiet :
    (cur chan : ℕ) (life : ℕ → Life)
    → is_running (life cur).state ≡ true
    → Quiet life (sleep cur chan life)
unfolding sleep
sleep-Quiet cur chan life h =
    let (free, dead, awake) = running_kinds (life cur).state h in
    put-Quiet life cur (record (life cur) { chan = some (other chan); state = sleeping })
      (record { pid = refl; free = sym free; dead = sym dead; asleep = λ c s e. absurd (cc (e)) })

pub dispatch-Quiet :
    (i : ℕ) (life : ℕ → Life) → is_runnable (life i).state ≡ true → Quiet life (dispatch i life)
unfolding dispatch
dispatch-Quiet i life h =
    let (free, dead) = runnable_kinds (life i).state h in
    put-Quiet life i (record (life i) { state = running; chan = none })
      (record { pid = refl; free = sym free; dead = sym dead; asleep = λ c s e. absurd (cc) })

kill_at-Similar : (p : Life) → Similar p (kill_at p)
unfolding kill_at
kill_at-Similar p = elim (Bool-cases (is_sleeping p.state)) [
  | inl asleep ↦
      let (free, dead) = asleep_kinds p.state asleep in
      let woken = if_true runnable p.state asleep in
      record {
        pid = refl;
        free = ap is_unused woken ∙ sym free;
        dead = ap is_zombie woken ∙ sym dead;
        asleep = λ c s e. absurd (let w = sym (ap is_sleeping woken) ∙ s in cc);
      }
  | inr awake ↦
      let same = if_false runnable p.state awake in
      record {
        pid = refl;
        free = ap is_unused same;
        dead = ap is_zombie same;
        asleep = λ c s e. (sym (ap is_sleeping same) ∙ s, e);
      }
]

pub kill-Quiet : (pid : ℕ) (life : ℕ → Life) → Quiet life (kill pid life).1
unfolding kill
kill-Quiet pid life = elim (Option-cases (find_proc nproc 0 (λ p. p.pid == pid) life)) [
  | inl e ↦ rw (e, kill) (λ j. Similar-refl (life j))
  | inr (i, e) ↦ rw (e, kill) (put-Quiet life i (kill_at (life i)) (kill_at-Similar (life i)))
]

-- None of these steps gives a process another parent.
abbrev pub SameParents : (ℕ → Life) → (ℕ → Life) → Type 0
SameParents life life' = (j : ℕ) → (life' j).parent ≡ (life j).parent

pub put-SameParents :
    (life : ℕ → Life) (i : ℕ) (p : Life)
    → p.parent ≡ (life i).parent
    → SameParents life (put life i p)
put-SameParents life i p h j = elim (ℕ_discrete j i) [
  | yes e ↦
      ap (λ (x : Life). x.parent) (if_true p (life j) (ground arith))
      ∙ h
      ∙ ap (λ x. (life x).parent) (sym e)
  | no d ↦ ap (λ (x : Life). x.parent) (if_false p (life j) (ground arith))
]

pub kill-SameParents : (pid : ℕ) (life : ℕ → Life) → SameParents life (kill pid life).1
unfolding kill kill_at
kill-SameParents pid life = elim (Option-cases (find_proc nproc 0 (λ p. p.pid == pid) life)) [
  | inl e ↦ rw (e, kill) (λ j. refl)
  | inr (i, e) ↦ rw (e, kill) (put-SameParents life i (kill_at (life i)) refl)
]
