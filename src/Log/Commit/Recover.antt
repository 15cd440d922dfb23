-- ===== src/Log/Commit/Recover.antt =====
-- Project-2, kernel/log.c: recover_from_log(), whenever the power fails.
use cse_536_advanced_operati.Base.{
  ℕ, ◌⊎◌, ◌+◌, ◌<◌, ◌≤◌, ◌≡◌, ◌≢◌, refl, sym, ap, ◌∙◌, subst, inl, inr, Bool, true, false, arith,
  ℕ_discrete,
}
use mathlib.Core.Path.{fun_ext}
use cse_536_advanced_operati.Log.State.{Block, Device, Log, bwrite, in_log, fill, fill_at}
use cse_536_advanced_operati.Log.Commit.{
  install_from, install_trans, header, write_head, read_head, clear_log, recover_from_log, reboot,
  initlog,
}
use cse_536_advanced_operati.Log.Commit.Stands.{
  Stands, IsHolding, IsClean, IsClean-Stands, in_log_at, IsLogged, install_from-Installed,
}

-- The header with no blocks.
header_zero : (name : ℕ → ℕ) (old : Block) → header 0 name old 0 ≡ 0
unfolding header fill
header_zero name old = refl

module _ (c : ℕ → Block) (start size : ℕ) where
  pub start_in_log : 0 < size → in_log start size start ≡ true
  start_in_log l = subst (λ x. in_log start size x ≡ true) (omega arith) (in_log_at start size 0 l)

  -- Writing a header with no blocks, with all blocks installed.
  pub cleared :
      (n : ℕ) (name : ℕ → ℕ) (w : Device) (contents : Block)
      → contents 0 ≡ 0
      → Stands c start size n name w.disk
      → (0 < w.power → (i : ℕ) → i < n → w.disk (name i) ≡ c (name i))
      → IsHolding c start size (bwrite start contents w).disk
        × (0 < w.power → IsClean c start size (bwrite start contents w).disk)
  cleared n name w contents none_left s installed =
      let clean : 0 < w.power → IsClean c start size (bwrite start contents w).disk = λ on. record {
        count =
            ap (λ (b : Block). b 0)
              (let t : (bwrite start contents w).disk start ≡ contents = ground arith in t)
            ∙ none_left;
        homes = λ b o.
            let own : w.disk b ≡ c b = elim (s.homes b o) [
              | inl p ↦ p
              | inr (i, l, e) ↦ ap w.disk (sym e) ∙ installed on i l ∙ ap c e
            ] in
            let room : 0 < size = let f = s.fits in omega arith in
            let other : b ≢ start = λ e. let t = start_in_log room in cc in ground arith;
      } in
      elim (ℕ_discrete w.power 0) [
        | yes e ↦
            let same : (bwrite start contents w).disk ≡ w.disk = fun_ext (λ k. ground arith) in
            ((n, name, subst (Stands c start size n name) (sym same) s), clean)
        | no d ↦
            let room : 0 < size = let f = s.fits in omega arith in
            (
              (
                0,
                name,
                IsClean-Stands c start size name (bwrite start contents w).disk room
                    (clean (omega arith)),
              ),
              clean,
            )
      ]

-- The last steps of commit() and of the recovery.
pub clear_log-install_trans :
    (c : ℕ → Block) (recovering : Bool) (l : Log)
    → IsLogged c l.start l.size l.lh_n l.lh_block l.device
    → IsHolding c l.start l.size (clear_log (install_trans recovering l)).device.disk
      × (l.lh_n < l.device.power
          → IsClean c l.start l.size (clear_log (install_trans recovering l)).device.disk)
unfolding clear_log install_trans write_head
clear_log-install_trans c recovering l logged =
    let done =
      install_from-Installed c l.start l.size l.lh_n l.lh_block recovering l.lh_n 0 l.device
        (omega arith) logged in
    let w : Device = install_from l.lh_n 0 recovering l.start l.lh_block l.device in
    let (holds, clean) =
      cleared c l.start l.size l.lh_n l.lh_block w (header 0 l.lh_block (w.cache l.start))
        (header_zero l.lh_block (w.cache l.start)) done.logged.stands
        (λ on i u. done.done i (omega arith) (omega arith) on) in
    (holds, λ enough. clean (let q = done.power in omega arith))

-- They leave the contents in the cache.
clear_log-install_trans_cache :
    (c : ℕ → Block) (recovering : Bool) (l : Log) (b : ℕ)
    → IsLogged c l.start l.size l.lh_n l.lh_block l.device
    → in_log l.start l.size b ≡ false
    → (l.device.cache b ≡ c b) ⊎ ((i : ℕ) × (i < l.lh_n) × (l.lh_block i ≡ b))
    → (clear_log (install_trans recovering l)).device.cache b ≡ c b
unfolding clear_log install_trans write_head
clear_log-install_trans_cache c recovering l b logged o own =
    let done =
      install_from-Installed c l.start l.size l.lh_n l.lh_block recovering l.lh_n 0 l.device
        (omega arith) logged in
    let w : Device = install_from l.lh_n 0 recovering l.start l.lh_block l.device in
    let apart : b ≢ l.start = λ e.
      let t = start_in_log c l.start l.size (let f = logged.stands.fits in omega arith) in cc in
    let here : w.cache b ≡ c b = elim own [
      | inl p ↦ done.cache_settled b p
      | inr (i, u, e) ↦ ap w.cache (sym e) ∙ done.cache_done i (omega arith) (omega arith) ∙ ap c e
    ] in
    ground arith

-- Only the names of the blocks that are in the log matter.
Stands-names :
    (c : ℕ → Block) (start size n n' : ℕ) (name name' : ℕ → ℕ) (d : ℕ → Block)
    → n' ≡ n
    → ((i : ℕ) → i < n → name' i ≡ name i)
    → Stands c start size n name d
    → Stands c start size n' name' d
Stands-names c start size n n' name name' d en same s = record {
  fits = let f = s.fits in omega arith;
  count = s.count ∙ sym en;
  names = λ i l. s.names i (omega arith) ∙ sym (same i (omega arith));
  targets = λ i l. ap (in_log start size) (same i (omega arith)) ∙ s.targets i (omega arith);
  copies = λ i l. s.copies i (omega arith) ∙ ap c (sym (same i (omega arith)));
  homes = λ b o. elim (s.homes b o) [
    | inl p ↦ inl p
    | inr (i, l, e) ↦ inr (i, omega arith, same i l ∙ e)
  ];
}

-- The log that read_head() finds after a restart.
abbrev found_names : ℕ → (ℕ → Block) → ℕ → ℕ
found_names start d = fill (d start 0) 0 0 (λ i. d start (i + 1)) (λ i. 0)

abbrev found_log : ℕ → ℕ → ℕ → Device → Log
found_log start size power v = record {
  start = start;
  size = size;
  outstanding = 0;
  committing = false;
  lh_n = v.disk start 0;
  lh_block = found_names start v.disk;
  device = reboot power v;
}

found_Stands :
    (c : ℕ → Block) (start size : ℕ) (d : ℕ → Block)
    → IsHolding c start size d
    → Stands c start size (d start 0) (found_names start d) d
found_Stands c start size d (n, name, s) =
    let read : (i : ℕ) → i < n → found_names start d i ≡ name i = λ i l.
      ap (found_names start d) (let t : i ≡ i + 0 = omega arith in t)
      ∙ fill_at (d start 0) 0 0 (λ i. d start (i + 1)) (λ i. 0) i (omega arith)
          (let e = s.count in omega arith)
      ∙ s.names i l in
    Stands-names c start size n (d start 0) name (found_names start d) d s.count read s

-- The recovery keeps what the disk stands for, and with enough power it ends with an empty log.
pub initlog-IsHolding :
    (c : ℕ → Block) (start size power : ℕ) (v : Device)
    → IsHolding c start size v.disk
    → IsHolding c start size (initlog start size (reboot power v)).device.disk
      × (size ≤ power → IsClean c start size (initlog start size (reboot power v)).device.disk)
unfolding initlog recover_from_log reboot read_head
initlog-IsHolding c start size power v held =
    let stands = found_Stands c start size v.disk held in
    let (holds, clean) =
      clear_log-install_trans c true (found_log start size power v)
        (record { stands = stands; cached = stands.copies }) in
    (holds, λ enough. clean (let f = stands.fits in omega arith))

-- The recovery leaves the contents of every block of a file in the cache.
pub initlog-cache :
    (c : ℕ → Block) (start size power : ℕ) (v : Device) (b : ℕ)
    → IsHolding c start size v.disk
    → in_log start size b ≡ false
    → (initlog start size (reboot power v)).device.cache b ≡ c b
unfolding initlog recover_from_log reboot read_head
initlog-cache c start size power v b held o =
    let stands = found_Stands c start size v.disk held in
    clear_log-install_trans_cache c true (found_log start size power v) b
      (record { stands = stands; cached = stands.copies }) o (stands.homes b o)
