-- ===== src/Process/Recycle.antt =====
-- Project-2, kernel/proc.c: a slot of the process table whose last process shared its pages.
use cse_536_advanced_operati.Base.{
  ℕ, ◌≡◌, refl, sym, ap, ap₂, ◌∙◌, subst, Bool, true, false, Option, none, some, if◌then◌else◌,
  Outcome, ret, ◌>>=◌, >>=-eq-ret, >>=-holds, ret_injective, arith, if_true,
}
use cse_536_advanced_operati.Cow.Groups.{decr_cow_group_count, Groups}
use cse_536_advanced_operati.Process.State.{User, KernelOps, Rest, nofile, put, set_user}
use cse_536_advanced_operati.Process.User.{
  kept_by, free_frame, free_space, free_user, alloc_space, alloc_frame, alloc_user, dup_files,
  copied_plain, copy_plain, copy_spaces, copy_memory, inherit, close_files, close_user, hold_dir,
  put_dir, inherited, closed,
}

-- The group of process `i` and the counts of all groups are as they were.
pub record KeepsGroup {World Space : Type 0} (i : ℕ) (r r' : Rest World Space) : Type 0 where
  pub enabled : (r'.user i).cow_enabled ≡ (r.user i).cow_enabled
  pub group : (r'.user i).cow_group ≡ (r.user i).cow_group
  pub groups : r'.groups ≡ r.groups

module _ {World Space : Type 0} (ops : KernelOps World Space) where
  set_user-KeepsGroup :
      (i : ℕ) (u : User Space) (w : World) (r : Rest World Space)
      → u.cow_enabled ≡ (r.user i).cow_enabled
      → u.cow_group ≡ (r.user i).cow_group
      → KeepsGroup i r (set_user i u (record r { world = w }))
  set_user-KeepsGroup i u w r e g =
      let here : put r.user i u i ≡ u = if_true u (r.user i) (ground arith) in
      record {
        enabled = ap (λ (x : User Space). x.cow_enabled) here ∙ e;
        group = ap (λ (x : User Space). x.cow_group) here ∙ g;
        groups = refl;
      }

  trans-KeepsGroup :
      (i : ℕ) (r s t : Rest World Space) → KeepsGroup i r s → KeepsGroup i s t → KeepsGroup i r t
  trans-KeepsGroup i r s t one two = record {
    enabled = two.enabled ∙ one.enabled;
    group = two.group ∙ one.group;
    groups = two.groups ∙ one.groups;
  }

  alloc_frame-KeepsGroup :
      (i : ℕ) (frame : Option (ℕ × World)) (r : Rest World Space) (made : Bool × Rest World Space)
      → alloc_frame ops i frame r ≡ ret made
      → KeepsGroup i r made.1
  unfolding alloc_frame alloc_space
  alloc_frame-KeepsGroup i none r made h =
      subst (λ (x : Bool × Rest World Space). KeepsGroup i r x.1) (ret_injective h)
        (set_user-KeepsGroup i (record (r.user i) { trapframe = none }) r.world r refl refl)
  alloc_frame-KeepsGroup i (some (page, w)) r made h =
      let p : User Space = record (r.user i) { trapframe = some page } in
      let r' : Rest World Space = set_user i p (record r { world = w }) in
      let one = set_user-KeepsGroup i p w r refl refl in
      >>=-holds (λ (x : Bool × Rest World Space). KeepsGroup i r x.1)
        (ops.proc_pagetable page r'.world)
        (λ space. ret (
          elim space.0 [ none ↦ false | some _ ↦ true ],
          set_user i (record (r'.user i) { pagetable = space.0 }) (record r' { world = space.1 }),
        ))
        h
        (λ space made_space two.
          subst (λ (x : Bool × Rest World Space). KeepsGroup i r x.1) (ret_injective two)
            (trans-KeepsGroup i r r'
              (set_user i (record (r'.user i) { pagetable = space.0 })
                (record r' { world = space.1 }))
              one
              (set_user-KeepsGroup i (record (r'.user i) { pagetable = space.0 }) space.1 r' refl
                refl)))

  alloc_user-KeepsGroup :
      (i : ℕ) (r : Rest World Space) (made : Bool × Rest World Space)
      → alloc_user ops i r ≡ ret made
      → KeepsGroup i r made.1
  unfolding alloc_user
  alloc_user-KeepsGroup i r made h = alloc_frame-KeepsGroup i (ops.kalloc r.world) r made h

  copied_plain-KeepsGroup :
      (i : ℕ) (result : Option Space × World) (r : Rest World Space)
      (copied : Bool × Rest World Space)
      → copied_plain ops i result r ≡ ret copied
      → KeepsGroup i r copied.1
  unfolding copied_plain
  copied_plain-KeepsGroup i (none, w) r copied h =
      subst (λ (x : Bool × Rest World Space). KeepsGroup i r x.1) (ret_injective h)
        (record { enabled = refl; group = refl; groups = refl })
  copied_plain-KeepsGroup i (some space, w) r copied h =
      subst (λ (x : Bool × Rest World Space). KeepsGroup i r x.1) (ret_injective h)
        (set_user-KeepsGroup i (record (r.user i) { pagetable = some space }) w r refl refl)

  copy_spaces-KeepsGroup :
      (cur i pid : ℕ) (old new : Option Space) (r : Rest World Space)
      (copied : Bool × Rest World Space)
      → copy_spaces ops false cur i pid old new r ≡ ret copied
      → KeepsGroup i r copied.1
  unfolding copy_spaces copy_plain
  copy_spaces-KeepsGroup cur i pid none new r copied h = absurd (cc)
  copy_spaces-KeepsGroup cur i pid (some old) none r copied h = absurd (cc)
  copy_spaces-KeepsGroup cur i pid (some old) (some new) r copied h =
      let (result, one, two) =
        >>=-eq-ret (ops.uvmcopy old new (r.user cur).sz r.world)
          (λ result. copied_plain ops i result r) h in
      copied_plain-KeepsGroup i result r copied two

  copy_memory-KeepsGroup :
      (cur i pid : ℕ) (r : Rest World Space) (copied : Bool × Rest World Space)
      → copy_memory ops false cur i pid r ≡ ret copied
      → KeepsGroup i r copied.1
  unfolding copy_memory
  copy_memory-KeepsGroup cur i pid r copied h =
      copy_spaces-KeepsGroup cur i pid (r.user cur).pagetable (r.user i).pagetable r copied h

  inherit-KeepsGroup :
      (cur i : ℕ) (r r' : Rest World Space) → inherit ops cur i r ≡ ret r' → KeepsGroup i r r'
  unfolding inherit
  inherit-KeepsGroup cur i r r' h =
      let (w, one, more) = >>=-eq-ret (dup_files ops nofile 0 (r.user cur).ofile r.world) _ h in
      let (v, two, last) = >>=-eq-ret (hold_dir ops (r.user cur).cwd w) _ more in
      subst (KeepsGroup i r) (ret_injective last)
        (set_user-KeepsGroup i (inherited (r.user cur) (r.user i)) v r refl refl)

  close_user-KeepsGroup :
      (i : ℕ) (r r' : Rest World Space) → close_user ops i r ≡ ret r' → KeepsGroup i r r'
  unfolding close_user
  close_user-KeepsGroup i r r' h =
      let (w, one, more) = >>=-eq-ret (close_files ops nofile 0 (r.user i).ofile r.world) _ h in
      let (v, two, last) = >>=-eq-ret (put_dir ops (r.user i).cwd w) _ more in
      subst (KeepsGroup i r) (ret_injective last)
        (set_user-KeepsGroup i (closed (r.user i)) v r refl refl)

  -- freeproc() of a process that shares pages takes it off the count of its group, and leaves
  -- `cow_enabled` and the group as they were.
  free_user_groups :
      (cur i : ℕ) (r r' : Rest World Space)
      → (r.user i).cow_enabled ≡ true
      → free_user ops cur i r ≡ ret r'
      → (decr_cow_group_count (r.user i).cow_group r.groups ≡ ret r'.groups)
        × ((r'.user i).cow_enabled ≡ true)
        × ((r'.user i).cow_group ≡ (r.user i).cow_group)
  unfolding free_user
  free_user_groups cur i r r' e h =
      let (w, one, h1) = >>=-eq-ret (free_frame ops (r.user i).trapframe r.world) _ h in
      let (v, two, h2) =
        >>=-eq-ret
          (free_space ops (kept_by ops (r.user cur) r.groups) (r.user i).pagetable (r.user i).sz w)
          _ h1 in
      let (groups, three, last) =
        >>=-eq-ret
          (if (r.user i).cow_enabled
            then decr_cow_group_count (r.user i).cow_group r.groups
            else ret r.groups)
          _ h2 in
      let p : User Space = record (r.user i) { trapframe = none; pagetable = none; sz = 0 } in
      let here : put r.user i p i ≡ p = if_true p (r.user i) (ground arith) in
      let same = ret_injective last in
      (
        sym (if_true _ _ e) ∙ three ∙ ap (λ (x : Rest World Space). ret x.groups) same,
        ap (λ (x : Rest World Space). (x.user i).cow_enabled) (sym same)
            ∙ ap (λ (x : User Space). x.cow_enabled) here
            ∙ e,
        ap (λ (x : Rest World Space). (x.user i).cow_group) (sym same)
            ∙ ap (λ (x : User Space). x.cow_group) here,
      )

  -- A process that shared its pages is freed, and its slot goes to a child that fork() gives pages
  -- of its own; the child exits and is freed. Then the group has been counted down twice.
  pub free_user_twice :
      (cur parent i pid last : ℕ) (before r s t u v r' : Rest World Space)
      → (before.user i).cow_enabled ≡ true
      → free_user ops cur i before ≡ ret r
      → alloc_user ops i r ≡ ret (true, s)
      → copy_memory ops false parent i pid s ≡ ret (true, t)
      → inherit ops parent i t ≡ ret u
      → close_user ops i u ≡ ret v
      → free_user ops last i v ≡ ret r'
      → (decr_cow_group_count (before.user i).cow_group before.groups
          >>= decr_cow_group_count (before.user i).cow_group)
        ≡ ret r'.groups
  free_user_twice cur parent i pid last before r s t u v r' e freed made copied given ended again =
      let group = (before.user i).cow_group in
      let (first, enabled, same) = free_user_groups cur i before r e freed in
      let kept =
        trans-KeepsGroup i r u v
          (trans-KeepsGroup i r t u
            (trans-KeepsGroup i r s t (alloc_user-KeepsGroup i r (true, s) made)
              (copy_memory-KeepsGroup parent i pid s (true, t) copied))
            (inherit-KeepsGroup parent i t u given))
          (close_user-KeepsGroup i u v ended) in
      let (second, enabled', same') = free_user_groups last i v r' (kept.enabled ∙ enabled) again in
      ap (λ (x : Outcome Groups). x >>= decr_cow_group_count group) first
      ∙ sym (ap₂ decr_cow_group_count (kept.group ∙ same) kept.groups)
      ∙ second
