-- ===== src/Cow/Groups/Shared.antt =====
-- Project-2, kernel/cow.c: add_shmem() against is_shmem().
use cse_536_advanced_operati.Base.{
  ℕ, ◌%◌, ◌^◌, ◌<◌, ◌≡◌, ◌≢◌, refl, ap, ◌∙◌, true, false, Option, none, some, ◌==◌, if◌then◌else◌,
  ret, ◌>>=◌, arith, ℕ_discrete,
}
use cse_536_advanced_operati.Cow.Groups.{
  nproc, shmem_max, Group, Groups, put_group, find_group, add_index, put_page, write_shmem,
  write_found, add_to, add_shmem, shared_from, is_shmem,
}
use cse_536_advanced_operati.Cow.Groups.Loops.{
  IsPacked, shared_from-written, shared_from-met, add_index-room, find_group-same, add_index-full,
}

pub write_found-group : (o : Option ℕ) (g : Group) (pa : ℕ) → (write_found o g pa).group ≡ g.group
unfolding write_found write_shmem
write_found-group none g pa = refl
write_found-group (some i) g pa = ground arith

pub write_shmem-below :
    (g : Group) (k pa : ℕ) → k ≢ 100 → (write_shmem g k pa).shmem ≡ put_page g.shmem k pa
unfolding write_shmem
write_shmem-below g k pa b = ground arith

write_found-shared :
    (o : Option ℕ) (g : Group) (pa q : ℕ)
    → IsPacked g.shmem
    → pa ≢ 0
    → g.shmem 99 ≡ 0
    → add_index shmem_max 0 g.shmem pa ≡ o
    → shared_from shmem_max 0 (write_found o g pa).shmem q
      ≡ (if q == pa then true else shared_from shmem_max 0 g.shmem q)
unfolding write_found write_shmem
write_found-shared none g pa q p z room h =
    let met = shared_from-met shmem_max 0 pa g.shmem z h in
    elim (ℕ_discrete q pa) [ yes e ↦ rw e (met ∙ ground arith) | no n ↦ ground arith ]
write_found-shared (some k) g pa q p z room h =
    let low = add_index-room shmem_max 0 99 k pa g.shmem room (omega arith) (omega arith) h in
    let written = shared_from-written shmem_max 0 k pa q g.shmem p z h (omega arith) in
    rw (write_shmem-below g k pa (omega arith)) written

pub put_group_self : (gs : Groups) (i : ℕ) (g : Group) → put_group gs i g i ≡ g
put_group_self gs i g = ground arith

pub put_group-ids :
    (gs : Groups) (i : ℕ) (g : Group)
    → g.group ≡ (gs i).group
    → (k : ℕ) → (put_group gs i g k).group ≡ (gs k).group
put_group-ids gs i g h k = elim (ℕ_discrete k i) [
  | yes e ↦ rw e (ap (λ x. x.group) (put_group_self gs i g) ∙ h)
  | no n ↦ ground arith
]

pub add_shmem-found :
    (id pa i : ℕ) (gs : Groups)
    → find_group nproc 0 id gs ≡ some i
    → add_shmem (some id) pa gs ≡ ret (put_group gs i (add_to (gs i) pa))
unfolding add_shmem
add_shmem-found id pa i gs found = rw (add_shmem, found) refl

is_shmem-found :
    (id pa i : ℕ) (gs : Groups)
    → find_group nproc 0 id gs ≡ some i
    → is_shmem (some id) pa gs ≡ ret (shared_from shmem_max 0 (gs i).shmem pa)
unfolding is_shmem
is_shmem-found id pa i gs found = rw (is_shmem, found) refl

-- Behind add_shmem() is_shmem() answers true for the page that was added and as before for every
-- other page, where the group is there, its pages are packed at the front of the array, its last
-- place is free and the page is not 0.
pub is_shmem-add_shmem :
    (id pa q i : ℕ) (gs : Groups)
    → find_group nproc 0 id gs ≡ some i
    → IsPacked (gs i).shmem
    → (gs i).shmem 99 ≡ 0
    → pa ≢ 0
    → (add_shmem (some id) pa gs >>= λ new. is_shmem (some id) q new)
      ≡ (is_shmem (some id) q gs >>= λ shared. ret (if q == pa then true else shared))
unfolding add_to
is_shmem-add_shmem id pa q i gs found p room z =
    let o = add_index shmem_max 0 (gs i).shmem pa in
    let g = write_found o (gs i) pa in
    let ids = put_group-ids gs i g (write_found-group o (gs i) pa) in
    let again = find_group-same nproc 0 id gs (put_group gs i g) ids ∙ found in
    let shared = write_found-shared o (gs i) pa q p z room refl in
    rw (add_shmem-found id pa i gs found, is_shmem-found id q i gs found)
      (is_shmem-found id q i (put_group gs i g) again ∙ rw (put_group_self gs i g) (ap ret shared))

-- With all 100 places taken add_shmem() writes the address of a page that is not among them over
-- the count of the group, and changes no other group.
pub add_shmem_full :
    (id pa i : ℕ) (gs : Groups)
    → find_group nproc 0 id gs ≡ some i
    → ((k : ℕ) → k < shmem_max → (gs i).shmem k ≢ 0)
    → is_shmem (some id) pa gs ≡ ret false
    → add_shmem (some id) pa gs ≡ ret (put_group gs i (record (gs i) { count = pa % 2 ^ 32 }))
unfolding add_to write_found write_shmem
add_shmem_full id pa i gs found full new =
    let unseen : shared_from shmem_max 0 (gs i).shmem pa ≡ false =
      cc (is_shmem-found id pa i gs found, new) in
    add_shmem-found id pa i gs found
    ∙ rw (add_index-full shmem_max 0 pa (gs i).shmem (λ k l b. full k b) unseen) refl
