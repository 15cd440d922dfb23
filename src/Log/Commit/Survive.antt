-- ===== src/Log/Commit/Survive.antt =====
-- Project-2, kernel/log.c: what commit() leaves on the disk, wherever the power fails.
use cse_536_advanced_operati.Base.{
  ℕ, zero, suc, ◌+◌, ◌<◌, ◌≡◌, ◌≢◌, refl, sym, ap, ◌∙◌, subst, ◌⊎◌, inl, inr, Bool, false, ltb, leb,
  if◌then◌else◌, arith, ℕ_discrete, Bool-cases, if_true, if_false,
}
use cse_536_advanced_operati.Log.State.{
  Block, Device, Log, bwrite, put, in_log, fill_below, fill_at,
}
use cse_536_advanced_operati.Log.Commit.{
  write_log, bunpin, install_from, install_trans, header, write_head, clear_log, commit,
}
use cse_536_advanced_operati.Log.Commit.Copies.{Outside, Copied, copy_to_log-Copied}
use cse_536_advanced_operati.Log.Commit.Stands.{
  IsHolding, IsClean, IsClean-Stands, IsLogged, install_from-Installed,
}
use cse_536_advanced_operati.Log.Commit.Recover.{clear_log-install_trans, start_in_log}

-- A log in memory that may be committed: its blocks have a place in the log on the disk, which is
-- empty, and every other block of a file is on the disk as the cache has it.
pub record IsReady (l : Log) : Type 0 where
  pub fits : l.lh_n < l.size
  pub targets : (i : ℕ) → i < l.lh_n → in_log l.start l.size (l.lh_block i) ≡ false
  pub count : l.device.disk l.start 0 ≡ 0
  pub homes :
      (b : ℕ)
      → in_log l.start l.size b ≡ false
      → (l.device.disk b ≡ l.device.cache b) ⊎ ((i : ℕ) × (i < l.lh_n) × (l.lh_block i ≡ b))

-- All or nothing, and all with enough power.
pub record Survives (l r : Log) : Type 0 where
  pub either :
      IsHolding l.device.disk l.start l.size r.device.disk
      ⊎ IsHolding l.device.cache l.start l.size r.device.disk
  pub enough :
      l.lh_n + l.lh_n + 1 < l.device.power → IsClean l.device.cache l.start l.size r.device.disk

home-Outside :
    (start size n b low : ℕ)
    → low ≡ start
    → in_log start size b ≡ false
    → n < size
    → Outside low (start + 0 + n) b
unfolding in_log
home-Outside start size n b low e o l = elim (Bool-cases (leb b low)) [
  | inl h ↦ inl (ground arith)
  | inr h ↦ inr (ground arith)
]

header_count : (n : ℕ) (name : ℕ → ℕ) (old : Block) → header n name old 0 ≡ n
unfolding header
header_count n name old = fill_below n 0 1 name (put old 0 n) 0 (omega arith)

header_name :
    (n : ℕ) (name : ℕ → ℕ) (old : Block) (i : ℕ) → i < n → header n name old (i + 1) ≡ name i
unfolding header
header_name n name old i l = fill_at n 0 1 name (put old 0 n) i (omega arith) (omega arith)

-- Without power nothing is written.
install_from_dead :
    (rounds tail : ℕ) (recovering : Bool) (start : ℕ) (block : ℕ → ℕ) (v : Device) (x : ℕ)
    → v.power ≡ 0
    → ((install_from rounds tail recovering start block v).disk x ≡ v.disk x)
      × ((install_from rounds tail recovering start block v).power ≡ 0)
unfolding install_from
install_from_dead zero tail recovering start block v x dead = (refl, dead)
install_from_dead (suc rounds) tail recovering start block v x dead =
    let w : Device = bwrite (block tail) (v.cache (start + tail + 1)) v in
    let (same, off) =
      install_from_dead rounds (tail + 1) recovering start block
        (record w { pins = if recovering then w.pins else (bunpin (block tail) w).pins }) x
        (omega arith) in
    (same ∙ ground arith, off)

module _ (l : Log) (ready : IsReady l) where
  copied : Copied l.start l.lh_block l.lh_n 0 l.device (write_log l).device
  unfolding write_log
  copied = copy_to_log-Copied l.start l.lh_block l.lh_n 0 l.device (λ i low high.
      home-Outside l.start l.size l.lh_n (l.lh_block i) l.start refl (ready.targets i (omega arith))
        ready.fits)

  room : 0 < l.size
  room = let f = ready.fits in omega arith

  home_kept :
      (b : ℕ) → in_log l.start l.size b ≡ false → (write_log l).device.disk b ≡ l.device.disk b
  home_kept b o =
      copied.disk b (home-Outside l.start l.size l.lh_n b (l.start + 0) (omega arith) o ready.fits)

  head_kept : (write_log l).device.disk l.start ≡ l.device.disk l.start
  head_kept = copied.disk l.start (inl (omega arith))

  home_apart : (b : ℕ) → in_log l.start l.size b ≡ false → b ≢ l.start
  home_apart b o e = let t = start_in_log l.device.cache l.start l.size room in cc

  -- With the header on the disk, the disk stands for what is in the cache.
  write_head-IsLogged :
      0 < (write_log l).device.power
      → IsLogged l.device.cache l.start l.size l.lh_n l.lh_block (write_head (write_log l)).device
  unfolding write_head write_log
  write_head-IsLogged on =
      let w : Device = (write_log l).device in
      let head : Block = header l.lh_n l.lh_block (w.cache l.start) in
      let u : Device = bwrite l.start head w in
      let new_head : u.disk l.start ≡ head = ground arith in
      let place : (i : ℕ) → l.start + i + 1 ≢ l.start = λ i. omega arith in
      record {
        stands = record {
          fits = ready.fits;
          count =
              ap (λ (b : Block). b 0) new_head ∙ header_count l.lh_n l.lh_block (w.cache l.start);
          names = λ i h.
              ap (λ (b : Block). b (i + 1)) new_head
              ∙ header_name l.lh_n l.lh_block (w.cache l.start) i h;
          targets = ready.targets;
          copies = λ i h.
              let t = place i in
              (let e : u.disk (l.start + i + 1) ≡ w.disk (l.start + i + 1) = ground arith in e)
              ∙ copied.written i (omega arith) (omega arith) on;
          homes = λ b o.
              let t = home_apart b o in
              let e : u.disk b ≡ w.disk b = ground arith in
              elim (ready.homes b o) [ inl p ↦ inl (e ∙ home_kept b o ∙ p) | inr q ↦ inr q ];
        };
        cached = λ i h.
            let t = place i in
            (let e : u.cache (l.start + i + 1) ≡ w.cache (l.start + i + 1) = ground arith in e)
            ∙ copied.copies i (omega arith) (omega arith);
      }

  -- Without power behind the copies, the header of the log on the disk stays empty.
  dead-IsClean :
      (write_log l).device.power ≡ 0
      → IsClean l.device.disk l.start l.size
          (clear_log (install_trans false (write_head (write_log l)))).device.disk
  unfolding clear_log install_trans write_head write_log
  dead-IsClean off =
      let w : Device = (write_log l).device in
      let u : Device = (write_head (write_log l)).device in
      let r : Device = (clear_log (install_trans false (write_head (write_log l)))).device in
      let same : (x : ℕ) → r.disk x ≡ w.disk x = λ x.
        let (same, dead) = install_from_dead l.lh_n 0 false l.start l.lh_block u x (omega arith) in
        ground arith in
      record {
        count = ap (λ (b : Block). b 0) (same l.start ∙ head_kept) ∙ ready.count;
        homes = λ b o. same b ∙ home_kept b o;
      }

  ready_holds : IsHolding l.device.disk l.start l.size l.device.disk
  ready_holds = (
    0,
    l.lh_block,
    IsClean-Stands l.device.disk l.start l.size l.lh_block l.device.disk room
        (record { count = ready.count; homes = λ b o. refl }),
  )

  -- The commit keeps the blocks of files in the cache.
  cache_kept :
      0 < (write_log l).device.power
      → (b : ℕ) → in_log l.start l.size b ≡ false
      → (clear_log (install_trans false (write_head (write_log l)))).device.cache b
        ≡ l.device.cache b
  unfolding clear_log install_trans write_head write_log
  cache_kept on b o =
      let u : Device = (write_head (write_log l)).device in
      let v : Device = (install_trans false (write_head (write_log l))).device in
      let t = home_apart b o in
      let new_head : u.cache b ≡ (write_log l).device.cache b = ground arith in
      let logged =
        copied.cache b
          (home-Outside l.start l.size l.lh_n b (l.start + 0) (omega arith) o ready.fits) in
      let installed =
        install_from-Installed l.device.cache l.start l.size l.lh_n l.lh_block false l.lh_n 0 u
          (omega arith) (write_head-IsLogged on) in
      let settled : v.cache b ≡ l.device.cache b = installed.cache_settled b (new_head ∙ logged) in
      ground arith

  none_Survives : ltb 0 l.lh_n ≡ false → Survives l l
  none_Survives none_left =
      let settled : (b : ℕ) → in_log l.start l.size b ≡ false → l.device.disk b ≡ l.device.cache b =
        λ b o. elim (ready.homes b o) [ inl p ↦ p | inr (i, h, e) ↦ absurd (ground arith) ] in
      record {
        either = inl ready_holds;
        enough = λ h. record { count = ready.count; homes = settled };
      }

  off_Survives :
      (write_log l).device.power ≡ 0
      → Survives l (clear_log (install_trans false (write_head (write_log l))))
  off_Survives off = record {
    either = inl (
      0,
      l.lh_block,
      IsClean-Stands l.device.disk l.start l.size l.lh_block _ room (dead-IsClean off),
    );
    enough = λ h. absurd (let q = copied.power in omega arith);
  }

  on_Survives :
      0 < (write_log l).device.power
      → Survives l (clear_log (install_trans false (write_head (write_log l))))
  unfolding write_head write_log
  on_Survives on =
      let (holds, clean) =
        clear_log-install_trans l.device.cache false (write_head (write_log l))
          (write_head-IsLogged on) in
      record { either = inr holds; enough = λ h. clean (let q = copied.power in omega arith) }

  cleared-IsReady :
      l.lh_n + l.lh_n + 1 < l.device.power
      → IsReady (clear_log (install_trans false (write_head (write_log l))))
  unfolding clear_log install_trans write_head write_log
  cleared-IsReady enough =
      let on : 0 < (write_log l).device.power = let q = copied.power in omega arith in
      let clean = (on_Survives on).enough enough in
      record {
        fits = room;
        targets = λ i h. absurd (omega arith);
        count = clean.count;
        homes = λ b o. inl (clean.homes b o ∙ sym (cache_kept on b o));
      }

-- Wherever the power fails in it, a commit leaves a disk that stands for all of what was there
-- before, or for all of what is in the cache; with power for it, the disk is the cache.
pub commit-Survives : (l : Log) → IsReady l → Survives l (commit l)
unfolding commit
commit-Survives l ready = elim (Bool-cases (ltb 0 l.lh_n)) [
  | inl some_left ↦
      subst (Survives l) (sym (if_true _ l some_left))
        (elim (ℕ_discrete (write_log l).device.power 0) [
          | yes off ↦ off_Survives l ready off
          | no on ↦ on_Survives l ready (omega arith)
        ])
  | inr none_left ↦
      subst (Survives l) (sym (if_false _ l none_left)) (none_Survives l ready none_left)
]

-- With power for the commit, the log is ready for the next blocks.
pub commit-IsReady :
    (l : Log) → IsReady l → l.lh_n + l.lh_n + 1 < l.device.power → IsReady (commit l)
unfolding commit
commit-IsReady l ready enough = elim (Bool-cases (ltb 0 l.lh_n)) [
  | inl some_left ↦ subst IsReady (sym (if_true _ l some_left)) (cleared-IsReady l ready enough)
  | inr none_left ↦ subst IsReady (sym (if_false _ l none_left)) ready
]
