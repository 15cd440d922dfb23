-- ===== src/Cow/Groups/Kept.antt =====
-- Project-2, kernel/cow.c: the calls that leave every group where it is in the table.
use cse_536_advanced_operati.Base.{ℕ, ◌+◌, ◌%◌, ◌^◌, ◌≡◌, refl, ◌∙◌, some, ret}
use cse_536_advanced_operati.Cow.Groups.{
  nproc, shmem_max, Group, Groups, put_group, find_group, get_cow_group, get_cow_group_count,
  incr_cow_group_count, add_index, add_to, add_shmem,
}
use cse_536_advanced_operati.Cow.Groups.Loops.{find_group-same}
use cse_536_advanced_operati.Cow.Groups.Shared.{write_found-group, put_group-ids, add_shmem-found}

find_group-put_group :
    (id i : ℕ) (gs : Groups) (g : Group)
    → g.group ≡ (gs i).group
    → find_group nproc 0 id (put_group gs i g) ≡ find_group nproc 0 id gs
find_group-put_group id i gs g h =
    find_group-same nproc 0 id gs (put_group gs i g) (put_group-ids gs i g h)

pub add_shmem_kept :
    (id pa i : ℕ) (gs : Groups)
    → find_group nproc 0 id gs ≡ some i
    → (new : Groups) × (add_shmem (some id) pa gs ≡ ret new) × (find_group nproc 0 id new ≡ some i)
unfolding add_to
add_shmem_kept id pa i gs found = (
  put_group gs i (add_to (gs i) pa),
  add_shmem-found id pa i gs found,
  find_group-put_group id i gs (add_to (gs i) pa)
        (write_found-group (add_index shmem_max 0 (gs i).shmem pa) (gs i) pa)
      ∙ found,
)

pub count_found :
    (id i : ℕ) (gs : Groups)
    → find_group nproc 0 id gs ≡ some i
    → get_cow_group_count (some id) gs ≡ ret (gs i).count
unfolding get_cow_group_count get_cow_group
count_found id i gs found = rw (get_cow_group_count, get_cow_group, found) refl

pub incr_kept :
    (id i : ℕ) (gs : Groups)
    → find_group nproc 0 id gs ≡ some i
    → (new : Groups) × (incr_cow_group_count (some id) gs ≡ ret new)
      × (find_group nproc 0 id new ≡ some i)
unfolding incr_cow_group_count get_cow_group
incr_kept id i gs found = (
  put_group gs i (record (gs i) { count = ((gs i).count + 1) % 2 ^ 32 }),
  rw (incr_cow_group_count, get_cow_group, found) refl,
  find_group-put_group id i gs _ refl ∙ found,
)
