-- ===== src/Cow/Groups/Loops.antt =====
-- Project-2, kernel/cow.c: the loops of get_cow_group(), add_shmem() and is_shmem().
use cse_536_advanced_operati.Base.{
  ℕ, zero, suc, ◌+◌, ◌<◌, ◌≤◌, ◌≡◌, ◌≢◌, refl, sym, ap, subst, ◌∙◌, true, false, none, some, ◌==◌,
  if◌then◌else◌, arith, ℕ_discrete,
}
use cse_536_advanced_operati.Cow.Groups.{Groups, find_group, add_index, put_page, shared_from}

-- The pages of a group stand at the front of its array, with zeros behind them.
abbrev pub IsPacked : (ℕ → ℕ) → Type 0
IsPacked shmem = (k : ℕ) → shmem k ≡ 0 → shmem (k + 1) ≡ 0

pub shared_from-zero :
    (rounds i pa : ℕ) (shmem : ℕ → ℕ) → shmem i ≡ 0 → shared_from rounds i shmem pa ≡ false
unfolding shared_from
shared_from-zero zero i pa shmem h = refl
shared_from-zero (suc rounds) i pa shmem h = ground arith

-- A write below the place of the search does not show.
pub shared_from-below :
    (rounds i k pa q : ℕ) (shmem : ℕ → ℕ)
    → k < i
    → shared_from rounds i (put_page shmem k pa) q ≡ shared_from rounds i shmem q
unfolding shared_from
shared_from-below zero i k pa q shmem h = refl
shared_from-below (suc rounds) i k pa q shmem h =
    ground (arith, shared_from-below rounds (i + 1) k pa q shmem)

-- A write at the place of the search, where the array has a zero.
pub shared_from-here :
    (rounds i pa q : ℕ) (shmem : ℕ → ℕ)
    → IsPacked shmem
    → pa ≢ 0
    → shmem i ≡ 0
    → shared_from (suc rounds) i (put_page shmem i pa) q
      ≡ (if q == pa then true else shared_from (suc rounds) i shmem q)
unfolding shared_from
shared_from-here rounds i pa q shmem p z e =
    let after = shared_from-zero rounds (i + 1) q shmem (p i e) in
    let below = shared_from-below rounds (i + 1) i pa q shmem (omega arith) in ground arith

pub add_index-here :
    (rounds i k pa : ℕ) (shmem : ℕ → ℕ)
    → pa ≢ 0
    → shmem i ≡ 0
    → add_index (suc rounds) i shmem pa ≡ some k
    → k ≡ i
unfolding add_index
add_index-here rounds i k pa shmem z e h = ground arith

pub add_index-on :
    (rounds i k pa : ℕ) (shmem : ℕ → ℕ)
    → shmem i ≢ 0
    → add_index (suc rounds) i shmem pa ≡ some k
    → add_index rounds (i + 1) shmem pa ≡ some k
unfolding add_index
add_index-on rounds i k pa shmem n h = ground arith

pub add_index-from :
    (rounds i k pa : ℕ) (shmem : ℕ → ℕ) → add_index rounds i shmem pa ≡ some k → i ≤ k
unfolding add_index
add_index-from zero i k pa shmem h = grind arith
add_index-from (suc rounds) i k pa shmem h =
    ground (arith, add_index-from rounds (i + 1) k pa shmem)

-- A page written at the index of the loop is found, and the answers for the others stay.
pub shared_from-written :
    (rounds i k pa q : ℕ) (shmem : ℕ → ℕ)
    → IsPacked shmem
    → pa ≢ 0
    → add_index rounds i shmem pa ≡ some k
    → k < i + rounds
    → shared_from rounds i (put_page shmem k pa) q
      ≡ (if q == pa then true else shared_from rounds i shmem q)
unfolding shared_from
shared_from-written zero i k pa q shmem p z h b =
    let low = add_index-from zero i k pa shmem h in absurd (omega arith)
shared_from-written (suc rounds) i k pa q shmem p z h b = elim (ℕ_discrete (shmem i) 0) [
  | yes e ↦
      let at = add_index-here rounds i k pa shmem z e h in
      let here = shared_from-here rounds i pa q shmem p z e in
      subst
        (λ j.
          shared_from (suc rounds) i (put_page shmem j pa) q
          ≡ (if q == pa then true else shared_from (suc rounds) i shmem q))
        (sym at) here
  | no n ↦
      let rest = add_index-on rounds i k pa shmem n h in
      let low = add_index-from rounds (i + 1) k pa shmem rest in
      let again = shared_from-written rounds (i + 1) k pa q shmem p z rest (omega arith) in
      ground arith
]

-- An address that the loop meets is one that is found already.
pub shared_from-met :
    (rounds i pa : ℕ) (shmem : ℕ → ℕ)
    → pa ≢ 0
    → add_index rounds i shmem pa ≡ none
    → shared_from rounds i shmem pa ≡ true
unfolding shared_from add_index
shared_from-met zero i pa shmem z h = absurd (cc)
shared_from-met (suc rounds) i pa shmem z h =
    ground (arith, shared_from-met rounds (i + 1) pa shmem z)

-- With a zero in the array the loop stops there at the latest.
pub add_index-room :
    (rounds i j k pa : ℕ) (shmem : ℕ → ℕ)
    → shmem j ≡ 0
    → i ≤ j
    → j < i + rounds
    → add_index rounds i shmem pa ≡ some k
    → k ≤ j
unfolding add_index
add_index-room zero i j k pa shmem e l b h = absurd (omega arith)
add_index-room (suc rounds) i j k pa shmem e l b h = elim (ℕ_discrete i j) [
  | yes same ↦ let at = ap shmem same ∙ e in ground arith
  | no n ↦
      let again = add_index-room rounds (i + 1) j k pa shmem e (omega arith) (omega arith) in
      ground arith
]

-- A search sees only the ids.
pub find_group-same :
    (rounds i id : ℕ) (gs new : Groups)
    → ((k : ℕ) → (new k).group ≡ (gs k).group)
    → find_group rounds i id new ≡ find_group rounds i id gs
unfolding find_group
find_group-same zero i id gs new h = refl
find_group-same (suc rounds) i id gs new h =
    let again = find_group-same rounds (i + 1) id gs new h in
    let same = h i in rw (same, again) refl

-- With no zero in the array and the page not in it the loop runs to its end.
pub add_index-full :
    (rounds i pa : ℕ) (shmem : ℕ → ℕ)
    → ((k : ℕ) → i ≤ k → k < i + rounds → shmem k ≢ 0)
    → shared_from rounds i shmem pa ≡ false
    → add_index rounds i shmem pa ≡ some (i + rounds)
unfolding add_index shared_from
add_index-full zero i pa shmem full new = ap some (omega arith)
add_index-full (suc rounds) i pa shmem full new =
    let here = full i (omega arith) (omega arith) in
    let new_there : (shmem i == pa) ≡ false → shared_from rounds (i + 1) shmem pa ≡ false =
      λ n. ground arith in
    let unseen : (shmem i == pa) ≡ false = ground arith in
    let above : (k : ℕ) → i + 1 ≤ k → k < (i + 1) + rounds → shmem k ≢ 0 =
      λ k l b. full k (omega arith) (omega arith) in
    let again = add_index-full rounds (i + 1) pa shmem above (new_there unseen) in
    let last : (i + 1) + rounds ≡ i + suc rounds = omega arith in ground arith
