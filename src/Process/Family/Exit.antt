-- ===== src/Process/Family/Exit.antt =====
-- Project-2, kernel/proc.c: exit() hands the children to init and wakes the parent.
use cse_536_advanced_operati.Base.{
  ℕ, zero, suc, ◌+◌, ◌<◌, ◌≤◌, ◌≡◌, ◌≢◌, refl, sym, ap, ◌∙◌, subst, inl, inr, Bool, true, false,
  ◌&&◌, Option, some, ltb, leb, ◌==◌, if◌then◌else◌, arith, Bool-cases, ℕ_discrete, if_true,
  if_false,
}
use cse_536_advanced_operati.Process.State.{process, is_sleeping, Life, nproc, put}
use cse_536_advanced_operati.Process.Table.{same_parent, wakes, wakeup, reparent}
use cse_536_advanced_operati.Process.Table.Quiet.{
  Similar-refl, Similar-trans, Quiet, put-Quiet, wakeup-Quiet, parent-wakeup, wakeup-wakes,
  same_chan_self,
}

module _ (cur init : ℕ) where
  -- The parent behind reparent().
  abbrev pub new_parent : Option ℕ → Option ℕ
  new_parent parent = if same_parent parent cur then some init else parent

  -- One turn of the loop.
  abbrev adopt : ℕ → (ℕ → Life) → ℕ → Life
  adopt i life =
      if same_parent (life i).parent cur
      then wakeup cur (process init) (put life i (record (life i) { parent = some init }))
      else life

  adopt-Quiet : (i : ℕ) (life : ℕ → Life) → Quiet life (adopt i life)
  adopt-Quiet i life = elim (Bool-cases (same_parent (life i).parent cur)) [
    | inl child ↦
        let given : Life = record (life i) { parent = some init } in
        subst (Quiet life) (sym (if_true _ _ child)) (λ j.
          Similar-trans (life j) (put life i given j)
            (wakeup cur (process init) (put life i given) j)
            (put-Quiet life i given
              (record { pid = refl; free = refl; dead = refl; asleep = λ c s e. (s, e) }) j)
            (wakeup-Quiet cur (process init) (put life i given) j))
    | inr own ↦ subst (Quiet life) (sym (if_false _ _ own)) (λ j. Similar-refl (life j))
  ]

  parent-adopt :
      (i : ℕ) (life : ℕ → Life) (j : ℕ)
      → (adopt i life j).parent ≡ (if j == i then new_parent (life j).parent else (life j).parent)
  parent-adopt i life j = elim (Bool-cases (same_parent (life i).parent cur)) [
    | inl child ↦
        let given : Life = record (life i) { parent = some init } in
        let step : (adopt i life j).parent ≡ (put life i given j).parent =
          ap (λ (l : ℕ → Life). (l j).parent) (if_true _ _ child)
          ∙ parent-wakeup cur (process init) (put life i given) j in
        elim (ℕ_discrete j i) [
          | yes e ↦
              let child_j : same_parent (life j).parent cur ≡ true =
                ap (λ x. same_parent (life x).parent cur) e ∙ child in
              step
              ∙ ap (λ (x : Life). x.parent) (if_true given (life j) (ground arith))
              ∙ sym (if_true (some init) (life j).parent child_j)
              ∙ sym (if_true (new_parent (life j).parent) (life j).parent (ground arith))
          | no d ↦
              step
              ∙ ap (λ (x : Life). x.parent) (if_false given (life j) (ground arith))
              ∙ sym (if_false (new_parent (life j).parent) (life j).parent (ground arith))
        ]
    | inr own ↦
        let step : (adopt i life j).parent ≡ (life j).parent =
          ap (λ (l : ℕ → Life). (l j).parent) (if_false _ _ own) in
        elim (ℕ_discrete j i) [
          | yes e ↦
              let own_j : same_parent (life j).parent cur ≡ false =
                ap (λ x. same_parent (life x).parent cur) e ∙ own in
              step
              ∙ sym (if_false (some init) (life j).parent own_j)
              ∙ sym (if_true (new_parent (life j).parent) (life j).parent (ground arith))
          | no d ↦ step ∙ sym (if_false (new_parent (life j).parent) (life j).parent (ground arith))
        ]
  ]

  -- A process that wakeup() has been called for does not sleep on itself.
  pub not_asleep :
      (life : ℕ → Life) (j : ℕ)
      → j < nproc
      → j ≢ cur
      → is_sleeping (wakeup cur (process j) life j).state ≡ true
      → (wakeup cur (process j) life j).chan ≢ some (process j)
  not_asleep life j small apart asleep e =
      let other_chan = wakeup-wakes cur (process j) life j small apart asleep in
      let own = ap (λ c. wakes c (process j)) e ∙ same_chan_self (process j) in cc

  -- Init does not sleep in wait() where it got a child.
  adopt_wakes :
      (i : ℕ) (life : ℕ → Life)
      → init < nproc
      → init ≢ cur
      → same_parent (life i).parent cur ≡ true
      → is_sleeping (adopt i life init).state ≡ true
      → (adopt i life init).chan ≢ some (process init)
  adopt_wakes i life small apart child asleep e =
      let given : ℕ → Life = put life i (record (life i) { parent = some init }) in
      let same =
        ap (λ (l : ℕ → Life). l init) (if_true (wakeup cur (process init) given) life child) in
      not_asleep given init small apart (sym (ap (λ (x : Life). is_sleeping x.state) same) ∙ asleep)
        (sym (ap (λ (x : Life). x.chan) same) ∙ e)

  -- The table behind the loop over the processes from `i` on.
  pub record Orphaned (rounds i : ℕ) (life life' : ℕ → Life) : Type 0 where
    pub quiet : Quiet life life'
    pub parents :
        (j : ℕ)
        → (life' j).parent
          ≡ (if leb i j && ltb j (i + rounds) then new_parent (life j).parent else (life j).parent)
    pub woken :
        (c : ℕ)
        → i ≤ c
        → c < i + rounds
        → same_parent (life c).parent cur ≡ true
        → is_sleeping (life' init).state ≡ true
        → (life' init).chan ≢ some (process init)

  pub reparent-Orphaned :
      (rounds i : ℕ) (life : ℕ → Life)
      → init < nproc
      → init ≢ cur
      → Orphaned rounds i life (reparent rounds i cur init life)
  unfolding reparent
  reparent-Orphaned zero i life small apart = record {
    quiet = λ j. Similar-refl (life j);
    parents = λ j. sym (if_false (new_parent (life j).parent) (life j).parent (ground arith));
    woken = λ c low high. absurd (omega arith);
  }
  reparent-Orphaned (suc rounds) i life small apart =
      let next = adopt i life in
      let rest = reparent-Orphaned rounds (i + 1) next small apart in
      let one = adopt-Quiet i life in
      record {
        quiet = λ j.
            Similar-trans (life j) (next j) (reparent rounds (i + 1) cur init next j) (one j)
              (rest.quiet j);
        parents = λ j. elim (ℕ_discrete j i) [
          | yes here ↦
              rest.parents j
              ∙ if_false (new_parent (next j).parent) (next j).parent (ground arith)
              ∙ parent-adopt i life j
              ∙ if_true (new_parent (life j).parent) (life j).parent (ground arith)
              ∙ sym (if_true (new_parent (life j).parent) (life j).parent (ground arith))
          | no there ↦
              let same =
                parent-adopt i life j
                ∙ if_false (new_parent (life j).parent) (life j).parent (ground arith) in
              rest.parents j
              ∙ ap (λ p. if leb (i + 1) j && ltb j (i + 1 + rounds) then new_parent p else p) same
              ∙ ap (λ (b : Bool). if b then new_parent (life j).parent else (life j).parent)
                  (let t : (leb (i + 1) j && ltb j (i + 1 + rounds))
                        ≡ (leb i j && ltb j (i + suc rounds)) =
                      ground arith in
                    t)
        ];
        woken = λ c low high child asleep e. elim (ℕ_discrete c i) [
          | yes here ↦
              let (s, e') = (rest.quiet init).asleep init asleep e in
              adopt_wakes i life small apart
                (ap (λ x. same_parent (life x).parent cur) (sym here) ∙ child) s e'
          | no later ↦
              let same =
                parent-adopt i life c
                ∙ if_false (new_parent (life c).parent) (life c).parent (ground arith) in
              rest.woken c (omega arith) (omega arith) (ap (λ p. same_parent p cur) same ∙ child)
                asleep e
        ];
      }
