-- ===== src/Cow/Groups.antt =====
-- Project-2, kernel/cow.c: the table of copy-on-write groups and the pages that a group shares.
pub mod Loops
pub mod Shared
pub mod Packed
pub mod Kept
use cse_536_advanced_operati.Base.{
  ℕ, zero, suc, ◌+◌, ◌-◌, ◌%◌, ◌^◌, ◌<◌, ◌≤◌, ◌≡◌, ◌≢◌, Bool, true, false, not, Option, none, some,
  ltb, ◌==◌, if◌then◌else◌, Outcome, ret, panic, ◌>>=◌,
}

abbrev pub nproc : ℕ
nproc = 64

abbrev pub shmem_max : ℕ
shmem_max = 100

-- struct cow_group. The id is `none` for -1; `count` is an int, by its 32 bits.
pub record Group : Type 0 where
  pub group : Option ℕ
  pub shmem : ℕ → ℕ
  pub count : ℕ

abbrev pub Groups : Type 0
Groups = ℕ → Group

abbrev pub is_free_entry : Group → Bool
is_free_entry g = elim g.group [ none ↦ true | some _ ↦ false ]

abbrev pub has_id : ℕ → Group → Bool
has_id id g = elim g.group [ none ↦ false | some k ↦ k == id ]

abbrev pub put_group : Groups → ℕ → Group → Groups
put_group gs i g k = if k == i then g else gs k

-- The first of `rounds` entries from `i` on that has the id.
unfoldable pub find_group : ℕ → ℕ → ℕ → Groups → Option ℕ
find_group zero i id gs = none
find_group (suc rounds) i id gs =
    let rest = find_group rounds (i + 1) id gs in if has_id id (gs i) then some i else rest

-- The place of the group in the table; `none` is a null pointer.
unfoldable pub get_cow_group : Option ℕ → Groups → Option ℕ
get_cow_group none gs = none
get_cow_group (some id) gs = find_group nproc 0 id gs

unfoldable pub free_entry : ℕ → ℕ → Groups → Option ℕ
free_entry zero i gs = none
free_entry (suc rounds) i gs =
    let rest = free_entry rounds (i + 1) gs in if is_free_entry (gs i) then some i else rest

-- With no entry left nothing happens.
unfoldable pub cow_group_init : Option ℕ → Groups → Groups
cow_group_init groupno gs = elim (free_entry nproc 0 gs) [
  | none ↦ gs
  | some i ↦ put_group gs i (record (gs i) { group = groupno })
]

-- A null pointer that is followed stops the kernel.
unfoldable pub get_cow_group_count : Option ℕ → Groups → Outcome ℕ
get_cow_group_count group gs = elim (get_cow_group group gs) [
  | none ↦ panic
  | some i ↦ ret (gs i).count
]

unfoldable pub incr_cow_group_count : Option ℕ → Groups → Outcome Groups
incr_cow_group_count group gs = elim (get_cow_group group gs) [
  | none ↦ panic
  | some i ↦ ret (put_group gs i (record (gs i) { count = ((gs i).count + 1) % 2 ^ 32 }))
]

unfoldable pub decr_cow_group_count : Option ℕ → Groups → Outcome Groups
decr_cow_group_count group gs = elim (get_cow_group group gs) [
  | none ↦ panic
  | some i ↦ ret (put_group gs i (record (gs i) { count = ((gs i).count + (2 ^ 32 - 1)) % 2 ^ 32 }))
]

-- The loop of add_shmem(): the index that is written, or `none` for an address that is there.
unfoldable pub add_index : ℕ → ℕ → (ℕ → ℕ) → ℕ → Option ℕ
add_index zero i shmem pa = some i
add_index (suc rounds) i shmem pa =
    let rest = add_index rounds (i + 1) shmem pa in
    if shmem i == pa then none else if shmem i == 0 then some i else rest

abbrev pub put_page : (ℕ → ℕ) → ℕ → ℕ → ℕ → ℕ
put_page shmem i pa k = if k == i then pa else shmem k

-- `shmem[index] = pa`. The array ends at index 100, where the struct has `count`.
unfoldable pub write_shmem : Group → ℕ → ℕ → Group
write_shmem g i pa =
    if i == shmem_max
    then record g { count = pa % 2 ^ 32 }
    else record g { shmem = put_page g.shmem i pa }

unfoldable pub write_found : Option ℕ → Group → ℕ → Group
write_found none g pa = g
write_found (some i) g pa = write_shmem g i pa

unfoldable pub add_to : Group → ℕ → Group
add_to g pa = write_found (add_index shmem_max 0 g.shmem pa) g pa

unfoldable pub add_shmem : Option ℕ → ℕ → Groups → Outcome Groups
add_shmem none pa gs = ret gs
add_shmem (some id) pa gs = elim (find_group nproc 0 id gs) [
  | none ↦ panic
  | some i ↦ ret (put_group gs i (add_to (gs i) pa))
]

unfoldable pub shared_from : ℕ → ℕ → (ℕ → ℕ) → ℕ → Bool
shared_from zero i shmem pa = false
shared_from (suc rounds) i shmem pa =
    let rest = shared_from rounds (i + 1) shmem pa in
    if shmem i == 0 then false else if shmem i == pa then true else rest

unfoldable pub is_shmem : Option ℕ → ℕ → Groups → Outcome Bool
is_shmem none pa gs = ret false
is_shmem (some id) pa gs = elim (find_group nproc 0 id gs) [
  | none ↦ panic
  | some i ↦ ret (shared_from shmem_max 0 (gs i).shmem pa)
]

unfoldable pub cow_init : Groups → Groups
cow_init gs k = if ltb k nproc then record { group = none; shmem = λ j. 0; count = 0 } else gs k
