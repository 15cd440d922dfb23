-- ===== src/Process/User.antt =====
-- Project-2, kernel/proc.c: what allocproc(), freeproc(), fork() and exit() do to the memory and the
-- files of a process.
use cse_536_advanced_operati.Base.{
  ℕ, zero, suc, ◌+◌, Bool, true, false, not, ◌&&◌, Option, none, some, ltb, ◌^◌, if◌then◌else◌,
  Outcome, ret, panic, ◌>>=◌,
}
use cse_536_advanced_operati.Cow.Groups.{
  Groups, cow_group_init, decr_cow_group_count, get_cow_group_count, is_shmem,
}
use cse_536_advanced_operati.Process.State.{User, KernelOps, Rest, put, set_user, nofile}

abbrev pub is_open : Option ℕ → Bool
is_open none = false
is_open (some f) = true

-- The word of the trap frame that is register a0.
abbrev pub a0 : ℕ
a0 = 14

-- The rest of what fork() gives the child: size, registers, files, directory, the on-demand bit.
abbrev pub inherited : {Space : Type 0} → User Space → User Space → User Space
inherited p np = record np {
  sz = p.sz;
  frame = put p.frame a0 0;
  ofile = λ fd. if ltb fd nofile && is_open (p.ofile fd) then p.ofile fd else np.ofile fd;
  cwd = p.cwd;
  ondemand = p.ondemand;
}

-- What exit() closes.
abbrev pub closed : {Space : Type 0} → User Space → User Space
closed p = record p { ofile = λ fd. if ltb fd nofile then none else p.ofile fd; cwd = none }

module _ {World Space : Type 0} (ops : KernelOps World Space) where
  -- The test of uvmunmap() with the process that runs, for a page that its group still uses.
  unfoldable pub kept_by : User Space → Groups → ℕ → Outcome Bool
  kept_by p gs pa =
      if not p.cow_enabled
      then ret false
      else get_cow_group_count p.cow_group gs >>= λ count.
          if ltb 1 count && ltb count (2 ^ 31) then is_shmem p.cow_group pa gs else ret false

  -- kfree() of the trap frame, if there is one.
  unfoldable pub free_frame : Option ℕ → World → Outcome World
  free_frame none w = ret w
  free_frame (some page) w = ops.kfree page w

  unfoldable pub free_space : (ℕ → Outcome Bool) → Option Space → ℕ → World → Outcome World
  free_space kept none sz w = ret w
  free_space kept (some space) sz w = ops.proc_freepagetable kept space sz w

  -- freeproc() of process `i`, called by process `cur`: `cow_enabled` stays.
  unfoldable pub free_user : ℕ → ℕ → Rest World Space → Outcome (Rest World Space)
  free_user cur i r =
      let p = r.user i in
      free_frame p.trapframe r.world >>= λ w.
      free_space (kept_by (r.user cur) r.groups) p.pagetable p.sz w >>= λ v.
      (if p.cow_enabled then decr_cow_group_count p.cow_group r.groups else ret r.groups)
      >>= λ groups. ret (record {
        user = put r.user i (record p { trapframe = none; pagetable = none; sz = 0 });
        groups = groups;
        world = v;
      })

  -- The trap frame and the page table of a new process; `false` where one cannot be had.
  unfoldable pub alloc_space : ℕ → ℕ → Rest World Space → Outcome (Bool × Rest World Space)
  alloc_space i page r = ops.proc_pagetable page r.world >>= λ made.
      let p = record (r.user i) { pagetable = made.0 } in
      ret (elim made.0 [ none ↦ false | some _ ↦ true ], set_user i p (record r { world = made.1 }))

  unfoldable pub alloc_frame :
      ℕ → Option (ℕ × World) → Rest World Space → Outcome (Bool × Rest World Space)
  alloc_frame i none r = ret (false, set_user i (record (r.user i) { trapframe = none }) r)
  alloc_frame i (some (page, w)) r =
      alloc_space i page
        (set_user i (record (r.user i) { trapframe = some page }) (record r { world = w }))

  unfoldable pub alloc_user : ℕ → Rest World Space → Outcome (Bool × Rest World Space)
  alloc_user i r = alloc_frame i (ops.kalloc r.world) r

  -- The loop that increments the counts of the open files.
  unfoldable pub dup_files : ℕ → ℕ → (ℕ → Option ℕ) → World → Outcome World
  dup_files zero fd ofile w = ret w
  dup_files (suc rounds) fd ofile w =
      (elim (ofile fd) [ none ↦ ret w | some f ↦ ops.filedup f w ]) >>= λ v.
      dup_files rounds (fd + 1) ofile v

  -- The memory of the child, with a group that the parent's pid names or with pages of its own.
  unfoldable pub copy_cow :
      ℕ → ℕ → ℕ → Space → Space → Rest World Space → Outcome (Bool × Rest World Space)
  copy_cow cur i pid old new r =
      let group = some pid in
      let groups = cow_group_init group r.groups in
      ops.uvmcopy_cow group old new (r.user cur).sz (groups, r.world) >>= λ copied.
      let np = record (r.user i) {
        cow_group = group;
        cow_enabled = true;
        pagetable = some copied.0.1;
      } in
      let p = record (r.user cur) {
        cow_group = group;
        cow_enabled = true;
        pagetable = some copied.0.0;
      } in
      ret (true, record { user = put (put r.user i np) cur p; groups = copied.1; world = copied.2 })

  -- The result of uvmcopy(), without a page table where it failed.
  unfoldable pub copied_plain :
      ℕ → Option Space × World → Rest World Space → Outcome (Bool × Rest World Space)
  copied_plain i (none, w) r = ret (false, record r { world = w })
  copied_plain i (some space, w) r =
      ret (true, set_user i (record (r.user i) { pagetable = some space }) (record r { world = w }))

  unfoldable pub copy_plain :
      ℕ → ℕ → Space → Space → Rest World Space → Outcome (Bool × Rest World Space)
  copy_plain cur i old new r =
      ops.uvmcopy old new (r.user cur).sz r.world >>= λ copied. copied_plain i copied r

  -- A null page table is followed by the copies.
  unfoldable pub copy_spaces :
      Bool
      → ℕ
      → ℕ
      → ℕ
      → Option Space
      → Option Space
      → Rest World Space
      → Outcome (Bool × Rest World Space)
  copy_spaces cow_enabled cur i pid none new r = panic
  copy_spaces cow_enabled cur i pid (some old) none r = panic
  copy_spaces true cur i pid (some old) (some new) r = copy_cow cur i pid old new r
  copy_spaces false cur i pid (some old) (some new) r = copy_plain cur i old new r

  unfoldable pub copy_memory :
      Bool → ℕ → ℕ → ℕ → Rest World Space → Outcome (Bool × Rest World Space)
  copy_memory cow_enabled cur i pid r =
      copy_spaces cow_enabled cur i pid (r.user cur).pagetable (r.user i).pagetable r

  -- A null directory is followed.
  unfoldable pub hold_dir : Option ℕ → World → Outcome World
  hold_dir none w = panic
  hold_dir (some dir) w = ops.idup dir w

  unfoldable pub inherit : ℕ → ℕ → Rest World Space → Outcome (Rest World Space)
  inherit cur i r = dup_files nofile 0 (r.user cur).ofile r.world >>= λ w.
      hold_dir (r.user cur).cwd w >>= λ v.
      ret (set_user i (inherited (r.user cur) (r.user i)) (record r { world = v }))

  unfoldable pub close_files : ℕ → ℕ → (ℕ → Option ℕ) → World → Outcome World
  close_files zero fd ofile w = ret w
  close_files (suc rounds) fd ofile w =
      (elim (ofile fd) [ none ↦ ret w | some f ↦ ops.fileclose f w ]) >>= λ v.
      close_files rounds (fd + 1) ofile v

  unfoldable pub put_dir : Option ℕ → World → Outcome World
  put_dir none w = panic
  put_dir (some dir) w = ops.iput dir w

  unfoldable pub close_user : ℕ → Rest World Space → Outcome (Rest World Space)
  close_user cur r = close_files nofile 0 (r.user cur).ofile r.world >>= λ w.
      put_dir (r.user cur).cwd w >>= λ v.
      ret (set_user cur (closed (r.user cur)) (record r { world = v }))
