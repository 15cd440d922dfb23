-- ===== src/Cow/Tests.antt =====
-- The copy-on-write groups on concrete tables.
use cse_536_advanced_operati.Base.{
  ℕ, zero, suc, ◌+◌, ◌*◌, ◌%◌, ◌^◌, ◌<◌, ◌≡◌, ◌≢◌, refl, true, false, none, some, ◌==◌,
  if◌then◌else◌, ret, panic, ◌>>=◌, arith,
}
use cse_536_advanced_operati.Cow.Groups.{
  nproc, Groups, put_group, find_group, add_to, shared_from, is_shmem, add_shmem, cow_group_init,
  incr_cow_group_count, get_cow_group_count, cow_init, free_entry, shmem_max, get_cow_group,
}
use cse_536_advanced_operati.Cow.Groups.Loops.{IsPacked}
use cse_536_advanced_operati.Cow.Groups.Shared.{is_shmem-add_shmem, add_shmem_full}
use cse_536_advanced_operati.Cow.Groups.Packed.{add_shmem-IsPacked}

-- Process 5 leads the group at place 0, which shares two pages.
abbrev two_pages : Groups
two_pages zero = record {
  group = some 5;
  shmem = λ k. if k == 0 then 4096 else if k == 1 then 8192 else 0;
  count = 2;
}
two_pages (suc k) = record { group = none; shmem = λ j. 0; count = 0 }

abbrev all_taken : Groups
all_taken zero = record { group = some 5; shmem = λ k. 4096 * (k + 1); count = 2 }
all_taken (suc k) = record { group = none; shmem = λ j. 0; count = 0 }

at_first : find_group nproc 0 5 two_pages ≡ some 0
unfolding find_group
at_first = refl

two-IsPacked : IsPacked (two_pages 0).shmem
two-IsPacked k h = ground arith

is_shmem-add_shmem_example :
    (add_shmem (some 5) 12288 two_pages >>= λ new. is_shmem (some 5) 12288 new) ≡ (
      is_shmem (some 5) 12288 two_pages >>= λ shared. ret (if 12288 == 12288 then true else shared))
is_shmem-add_shmem_example =
    is_shmem-add_shmem 5 12288 12288 0 two_pages at_first two-IsPacked refl (omega arith)

all-IsPacked : (i : ℕ) → IsPacked (two_pages i).shmem
all-IsPacked zero k h = two-IsPacked k h
all-IsPacked (suc i) k h = refl

added :
    add_shmem (some 5) 12288 two_pages ≡ ret (put_group two_pages 0 (add_to (two_pages 0) 12288))
unfolding add_shmem find_group add_to
added = refl

add_shmem-IsPacked_example : IsPacked (put_group two_pages 0 (add_to (two_pages 0) 12288) 0).shmem
add_shmem-IsPacked_example =
    add_shmem-IsPacked (some 5) 12288 two_pages (put_group two_pages 0 (add_to (two_pages 0) 12288))
      all-IsPacked (omega arith) added 0

taken_at_first : find_group nproc 0 5 all_taken ≡ some 0
unfolding find_group
taken_at_first = refl

no_room : (k : ℕ) → k < shmem_max → (all_taken 0).shmem k ≢ 0
no_room k h = ground arith

unseen : is_shmem (some 5) 4097 all_taken ≡ ret false
unfolding is_shmem find_group shared_from
unseen = refl

add_shmem_full_example :
    add_shmem (some 5) 4097 all_taken
    ≡ ret (put_group all_taken 0 (record (all_taken 0) { count = 4097 % 2 ^ 32 }))
add_shmem_full_example = add_shmem_full 5 4097 0 all_taken taken_at_first no_room unseen

-- cow_group_init() takes the first entry that is free, and the count starts at 0.
counts :
    (incr_cow_group_count (some 7) (cow_group_init (some 7) two_pages) >>= λ gs.
    get_cow_group_count (some 7) gs)
    ≡ ret 1
unfolding incr_cow_group_count cow_group_init get_cow_group_count free_entry find_group
    get_cow_group
counts = refl

-- The count of a group that is not there is read through a null pointer.
no_group : get_cow_group_count (some 3) (cow_init two_pages) ≡ panic
unfolding get_cow_group_count cow_init find_group get_cow_group
no_group = refl
