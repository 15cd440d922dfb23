-- ===== src/Process/Family/Slots.antt =====
-- Project-2, kernel/proc.c: the slot of a process that starts or ends.
use cse_536_advanced_operati.Base.{
  ℕ, ◌+◌, ◌<◌, ◌≤◌, ◌≡◌, ◌≢◌, refl, sym, ap, ◌∙◌, subst, ◌⊎◌, inl, inr, true, false, none, some,
  arith, ℕ_discrete,
}
use cse_536_advanced_operati.Process.State.{
  sleeping, runnable, process, is_unused, is_sleeping, is_running, is_zombie, Life, nproc, put,
}
use cse_536_advanced_operati.Process.Table.{is_dead_child, free_life}
use cse_536_advanced_operati.Process.Table.Quiet.{running_kinds}
use cse_536_advanced_operati.Process.Family.{IsLive, IsValid, Same-IsValid}

-- More pids.
pub IsValid-nextpid :
    (life : ℕ → Life) (n m init : ℕ) → n ≤ m → IsValid life n init → IsValid life m init
IsValid-nextpid life n m init l valid = record {
  named = λ j small u. let (low, high) = valid.named j small u in (low, omega arith);
  unique = valid.unique;
  family = valid.family;
  orphan = valid.orphan;
  init_small = valid.init_small;
  init_live = valid.init_live;
  init_root = valid.init_root;
  awake = valid.awake;
}

module _ (life : ℕ → Life) (nextpid init i : ℕ) (p : Life) where
  at_place : put life i p i ≡ p
  at_place = ground arith

  elsewhere : (j : ℕ) → j ≢ i → put life i p j ≡ life j
  elsewhere j d = ground arith

  -- Two cases for a process of a table in which one has changed.
  pub put_cases {ℓ} :
      (P : ℕ → Life → Type ℓ)
      → P i p
      → ((j : ℕ) → j ≢ i → P j (life j))
      → (j : ℕ) → P j (put life i p j)
  put_cases P here there j = elim (ℕ_discrete j i) [
    | yes e ↦ subst (λ x. P x (put life i p x)) (sym e) (subst (P i) (sym at_place) here)
    | no d ↦ subst (P j) (sym (elsewhere j d)) (there j d)
  ]

-- What is put into a slot: nothing, or a process that runs, with a pid and a parent.
pub record Fits (life : ℕ → Life) (nextpid : ℕ) (p : Life) : Type 0 where
  pub awake : is_sleeping p.state ≡ false
  pub alive : is_zombie p.state ≡ false
  pub free : is_unused p.state ≡ true → p.parent ≡ none
  pub low : is_unused p.state ≡ false → 0 < p.pid
  pub high : is_unused p.state ≡ false → p.pid < nextpid
  pub fresh :
      is_unused p.state ≡ false
      → (j : ℕ) → j < nproc
      → is_unused (life j).state ≡ false
      → (life j).pid ≢ p.pid
  pub parent :
      is_unused p.state ≡ false → (q : ℕ) × (p.parent ≡ some q) × (q < nproc) × IsLive (life q)

not-IsLive : (p : Life) → (is_unused p.state ≡ true) ⊎ (is_zombie p.state ≡ true) → ¬ IsLive p
not-IsLive p (inl h) live = let e = live.used in cc
not-IsLive p (inr h) live = let e = live.alive in cc

-- The slot of no process, or of one that has ended, takes what fits.
pub put-IsValid :
    (life : ℕ → Life) (nextpid init i : ℕ) (p : Life)
    → i < nproc
    → (is_unused (life i).state ≡ true) ⊎ (is_zombie (life i).state ≡ true)
    → Fits life nextpid p
    → IsValid life nextpid init
    → IsValid (put life i p) nextpid init
put-IsValid life nextpid init i p small ended fits valid =
    let cases = λ (P : ℕ → Life → Type 0). put_cases life nextpid init i p P in
    let apart : (q : ℕ) → IsLive (life q) → q ≢ i =
      λ q live e. not-IsLive (life i) ended (subst (λ x. IsLive (life x)) e live) in
    let kept : (q : ℕ) → IsLive (life q) → put life i p q ≡ life q =
      λ q live. elsewhere life nextpid init i p q (apart q live) in
    let still : (q : ℕ) → IsLive (life q) → IsLive (put life i p q) =
      λ q live. subst IsLive (sym (kept q live)) live in
    record {
      named =
          cases (λ j x. j < nproc → is_unused x.state ≡ false → (0 < x.pid) × (x.pid < nextpid))
            (λ s u. (fits.low u, fits.high u)) (λ j d. valid.named j);
      unique =
          cases
            (λ k x.
              (j : ℕ)
              → k < nproc
              → j < nproc
              → k ≢ j
              → is_unused x.state ≡ false
              → is_unused (put life i p j).state ≡ false
              → x.pid ≢ (put life i p j).pid)
            (cases
              (λ j y.
                i < nproc
                → j < nproc
                → i ≢ j
                → is_unused p.state ≡ false
                → is_unused y.state ≡ false
                → p.pid ≢ y.pid)
              (λ si sj d. absurd (d refl)) (λ j d si sj ne up uj e. fits.fresh up j sj uj (sym e)))
            (λ k d.
              cases
                (λ j y.
                  k < nproc
                  → j < nproc
                  → k ≢ j
                  → is_unused (life k).state ≡ false
                  → is_unused y.state ≡ false
                  → (life k).pid ≢ y.pid)
                (λ sk si ne uk up e. fits.fresh up k sk uk e) (λ j dj. valid.unique k j));
      family =
          cases
            (λ j x.
              j < nproc
              → is_unused x.state ≡ false
              → j ≢ init
              → (q : ℕ) × (x.parent ≡ some q) × (q < nproc) × IsLive (put life i p q))
            (λ s u d. let (q, e, sq, live) = fits.parent u in (q, e, sq, still q live))
            (λ j d s u ne.
              let (q, e, sq, live) = valid.family j s u ne in (q, e, sq, still q live));
      orphan =
          cases (λ j x. j < nproc → is_unused x.state ≡ true → x.parent ≡ none) (λ s u. fits.free u)
            (λ j d. valid.orphan j);
      init_small = valid.init_small;
      init_live = still init valid.init_live;
      init_root = ap (λ (x : Life). x.parent) (kept init valid.init_live) ∙ valid.init_root;
      awake =
          cases
            (λ j x.
              (c : ℕ)
              → j < nproc
              → is_sleeping x.state ≡ true
              → x.chan ≡ some (process c)
              → (c ≡ j) × ((k : ℕ) → k < nproc → is_dead_child j (put life i p k) ≡ false))
            (λ c s a e. absurd (let w = fits.awake in cc))
            (λ j d c s a e.
              let (own, none_dead) = valid.awake j c s a e in
              (
                own,
                cases (λ k y. k < nproc → is_dead_child j y ≡ false)
                    (λ si. let w = fits.alive in ground arith) (λ k dk. none_dead k),
              ));
    }

free_life-Fits : (life : ℕ → Life) (nextpid : ℕ) → Fits life nextpid free_life
free_life-Fits life nextpid = record {
  awake = refl;
  alive = refl;
  free = λ u. refl;
  low = λ u. absurd (cc);
  high = λ u. absurd (cc);
  fresh = λ u. absurd (cc);
  parent = λ u. absurd (cc);
}

pub free-IsValid :
    (life : ℕ → Life) (nextpid init i : ℕ)
    → i < nproc
    → (is_unused (life i).state ≡ true) ⊎ (is_zombie (life i).state ≡ true)
    → IsValid life nextpid init
    → IsValid (put life i free_life) nextpid init
free-IsValid life nextpid init i small ended valid =
    put-IsValid life nextpid init i free_life small ended (free_life-Fits life nextpid) valid

-- A child with the next pid.
pub child-IsValid :
    (life : ℕ → Life) (nextpid init i cur : ℕ)
    → i < nproc
    → is_unused (life i).state ≡ true
    → cur < nproc
    → is_running (life cur).state ≡ true
    → IsValid life nextpid init
    → IsValid
        (put life i (record (life i) { pid = nextpid; state = runnable; parent = some cur }))
        (nextpid + 1)
        init
child-IsValid life nextpid init i cur small unused_i cur_small runs valid =
    let (used_cur, alive_cur, awake_cur) = running_kinds (life cur).state runs in
    let (low, high) = valid.named init valid.init_small valid.init_live.used in
    put-IsValid life (nextpid + 1) init i
      (record (life i) { pid = nextpid; state = runnable; parent = some cur }) small (inl unused_i)
      (record {
        awake = refl;
        alive = refl;
        free = λ u. absurd (cc);
        low = λ u. omega arith;
        high = λ u. omega arith;
        fresh = λ u j sj uj e. let (l, h) = valid.named j sj uj in omega arith;
        parent = λ u. (cur, refl, cur_small, record { used = used_cur; alive = alive_cur });
      })
      (IsValid-nextpid life nextpid (nextpid + 1) init (omega arith) valid)

-- A process goes to sleep in wait(), with no dead child.
pub asleep-IsValid :
    (life : ℕ → Life) (nextpid init cur : ℕ)
    → is_running (life cur).state ≡ true
    → ((j : ℕ) → j < nproc → is_dead_child cur (life j) ≡ false)
    → IsValid life nextpid init
    → IsValid
        (put life cur (record (life cur) { chan = some (process cur); state = sleeping }))
        nextpid
        init
asleep-IsValid life nextpid init cur runs none_dead valid =
    let p : Life = record (life cur) { chan = some (process cur); state = sleeping } in
    let (used_cur, alive_cur, awake_cur) = running_kinds (life cur).state runs in
    let cases = λ (P : ℕ → Life → Type 0). put_cases life nextpid init cur p P in
    Same-IsValid life (put life cur p) nextpid init
      (cases (λ j x. x.pid ≡ (life j).pid) refl (λ j d. refl))
      (cases (λ j x. is_unused x.state ≡ is_unused (life j).state) (sym used_cur) (λ j d. refl))
      (cases (λ j x. is_zombie x.state ≡ is_zombie (life j).state) (sym alive_cur) (λ j d. refl))
      (cases (λ j x. x.parent ≡ (life j).parent) refl (λ j d. refl))
      (cases
        (λ j x.
          (c : ℕ)
          → j < nproc
          → is_sleeping x.state ≡ true
          → x.chan ≡ some (process c)
          → (c ≡ j) × ((k : ℕ) → k < nproc → is_dead_child j (life k) ≡ false))
        (λ c s a e. (cc, none_dead)) (λ j d c. valid.awake j c))
      valid
