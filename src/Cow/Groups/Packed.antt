-- ===== src/Cow/Groups/Packed.antt =====
-- Project-2, kernel/cow.c: the arrays of the groups stay packed.
use cse_536_advanced_operati.Base.{
  ℕ, zero, suc, ◌+◌, ◌<◌, ◌≤◌, ◌≡◌, ◌≢◌, refl, subst, Option, none, some, inl, inr, ret, panic,
  arith, Option-cases, ℕ_discrete,
}
use cse_536_advanced_operati.Cow.Groups.{
  nproc, shmem_max, Group, Groups, put_group, find_group, add_index, put_page, write_shmem,
  write_found, add_to, add_shmem,
}
use cse_536_advanced_operati.Cow.Groups.Loops.{IsPacked, add_index-on}
use cse_536_advanced_operati.Cow.Groups.Shared.{write_shmem-below, add_shmem-found, put_group_self}

first_taken :
    (rounds i k pa : ℕ) (shmem : ℕ → ℕ)
    → add_index (suc rounds) i shmem pa ≡ some k
    → i < k
    → shmem i ≢ 0
unfolding add_index
first_taken rounds i k pa shmem h b z = ground arith

-- Below the index that the loop finds the array has no zero.
add_index-below :
    (rounds i k pa j : ℕ) (shmem : ℕ → ℕ)
    → add_index rounds i shmem pa ≡ some k
    → i ≤ j
    → j < k
    → shmem j ≢ 0
unfolding add_index
add_index-below zero i k pa j shmem h l b = grind arith
add_index-below (suc rounds) i k pa j shmem h l b = elim (ℕ_discrete i j) [
  | yes e ↦ subst (λ c. shmem c ≢ 0) e (first_taken rounds i k pa shmem h (omega arith))
  | no n ↦
      let taken = first_taken rounds i k pa shmem h (omega arith) in
      let rest = add_index-on rounds i k pa shmem taken h in
      add_index-below rounds (i + 1) k pa j shmem rest (omega arith) b
]

put_page-IsPacked :
    (shmem : ℕ → ℕ) (k pa : ℕ)
    → IsPacked shmem
    → pa ≢ 0
    → ((j : ℕ) → j < k → shmem j ≢ 0)
    → IsPacked (put_page shmem k pa)
put_page-IsPacked shmem k pa p z below j e = let at = p j in let under = below j in ground arith

write_found-IsPacked :
    (o : Option ℕ) (g : Group) (pa : ℕ)
    → IsPacked g.shmem
    → pa ≢ 0
    → add_index shmem_max 0 g.shmem pa ≡ o
    → IsPacked (write_found o g pa).shmem
unfolding write_found write_shmem
write_found-IsPacked none g pa p z h = p
write_found-IsPacked (some k) g pa p z h = elim (ℕ_discrete k 100) [
  | yes e ↦ rw e p
  | no n ↦ rw (write_shmem-below g k pa n) (
      put_page-IsPacked g.shmem k pa p z
        (λ j b. add_index-below shmem_max 0 k pa j g.shmem h (omega arith) b))
]

put_group-other : (gs : Groups) (k i : ℕ) (g : Group) → i ≢ k → put_group gs k g i ≡ gs i
put_group-other gs k i g n = ground arith

put_group-IsPacked :
    (gs : Groups) (k : ℕ) (g : Group)
    → ((i : ℕ) → IsPacked (gs i).shmem)
    → IsPacked g.shmem
    → (i : ℕ) → IsPacked (put_group gs k g i).shmem
put_group-IsPacked gs k g p q i = elim (ℕ_discrete i k) [
  | yes e ↦ rw (e, put_group_self gs k g) q
  | no n ↦ rw (put_group-other gs k i g n) (p i)
]

add_shmem-missing :
    (id pa : ℕ) (gs : Groups) → find_group nproc 0 id gs ≡ none → add_shmem (some id) pa gs ≡ panic
unfolding add_shmem
add_shmem-missing id pa gs n = rw (add_shmem, n) refl

-- add_shmem() of a page other than 0 keeps the pages of every group at the front of its array.
pub add_shmem-IsPacked :
    (group : Option ℕ) (pa : ℕ) (gs new : Groups)
    → ((i : ℕ) → IsPacked (gs i).shmem)
    → pa ≢ 0
    → add_shmem group pa gs ≡ ret new
    → (i : ℕ) → IsPacked (new i).shmem
unfolding add_shmem add_to
add_shmem-IsPacked none pa gs new p z h i =
    let same : gs ≡ new = cc in subst (λ (t : Groups). IsPacked (t i).shmem) same (p i)
add_shmem-IsPacked (some id) pa gs new p z h i = elim (Option-cases (find_group nproc 0 id gs)) [
  | inl n ↦ absurd (cc (add_shmem-missing id pa gs n, h))
  | inr (k, found) ↦
      let g = write_found (add_index shmem_max 0 (gs k).shmem pa) (gs k) pa in
      let same : put_group gs k g ≡ new = cc (add_shmem-found id pa k gs found) in
      let packed =
        write_found-IsPacked (add_index shmem_max 0 (gs k).shmem pa) (gs k) pa (p k) z refl in
      subst (λ (t : Groups). IsPacked (t i).shmem) same (put_group-IsPacked gs k g p packed i)
]
