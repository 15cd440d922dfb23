-- ===== src/Log/Commit/Stands.antt =====
-- Project-2, kernel/log.c: what a disk with a log stands for, and how install_trans() keeps it.
use cse_536_advanced_operati.Base.{
  ℕ, zero, suc, ◌+◌, ◌-◌, ◌<◌, ◌≤◌, ◌≡◌, ◌≢◌, sym, ap, ◌∙◌, subst, ◌⊎◌, inl, inr, Bool, true, false,
  if◌then◌else◌, arith, ℕ_discrete,
}
use cse_536_advanced_operati.Log.State.{Block, Device, bwrite, in_log}
use cse_536_advanced_operati.Log.Commit.{install_from, bunpin}

-- The disk `d` with `n` blocks in its log stands for the contents `c`: the block of a file has its
-- contents, unless its copy in the log has.
pub record Stands (c : ℕ → Block) (start size n : ℕ) (name : ℕ → ℕ) (d : ℕ → Block) : Type 0 where
  pub fits : n < size
  pub count : d start 0 ≡ n
  pub names : (i : ℕ) → i < n → d start (i + 1) ≡ name i
  pub targets : (i : ℕ) → i < n → in_log start size (name i) ≡ false
  pub copies : (i : ℕ) → i < n → d (start + i + 1) ≡ c (name i)
  pub homes :
      (b : ℕ) → in_log start size b ≡ false → (d b ≡ c b) ⊎ ((i : ℕ) × (i < n) × (name i ≡ b))

abbrev pub IsHolding : (ℕ → Block) → ℕ → ℕ → (ℕ → Block) → Type 0
IsHolding c start size d = (n : ℕ) × (name : ℕ → ℕ) × Stands c start size n name d

-- No block is in the log, and each has its contents in its own place.
pub record IsClean (c : ℕ → Block) (start size : ℕ) (d : ℕ → Block) : Type 0 where
  pub count : d start 0 ≡ 0
  pub homes : (b : ℕ) → in_log start size b ≡ false → d b ≡ c b

pub IsClean-Stands :
    (c : ℕ → Block) (start size : ℕ) (name : ℕ → ℕ) (d : ℕ → Block)
    → 0 < size
    → IsClean c start size d
    → Stands c start size 0 name d
IsClean-Stands c start size name d room clean = record {
  fits = room;
  count = clean.count;
  names = λ i l. absurd (omega arith);
  targets = λ i l. absurd (omega arith);
  copies = λ i l. absurd (omega arith);
  homes = λ b o. inl (clean.homes b o);
}

-- The log is as large as `size` says, from its header on.
pub in_log_at : (start size i : ℕ) → i < size → in_log start size (start + i) ≡ true
unfolding in_log
in_log_at start size i l = ground arith

module _ (c : ℕ → Block) (start size n : ℕ) (name : ℕ → ℕ) where
  -- The copies can be read, too.
  pub record IsLogged (v : Device) : Type 0 where
    pub stands : Stands c start size n name v.disk
    pub cached : (i : ℕ) → i < n → v.cache (start + i + 1) ≡ c (name i)

  apart : (b k : ℕ) → in_log start size b ≡ true → in_log start size k ≡ false → b ≢ k
  apart b k one two e = cc

  in_log_place : (i : ℕ) → i < n → n < size → in_log start size (start + i + 1) ≡ true
  in_log_place i l u =
      subst (λ x. in_log start size x ≡ true) (omega arith)
        (in_log_at start size (i + 1) (omega arith))

  -- A block of the log goes to its place.
  bwrite-IsLogged :
      (v : Device) (tail : ℕ)
      → tail < n
      → IsLogged v
      → IsLogged (bwrite (name tail) (v.cache (start + tail + 1)) v)
  bwrite-IsLogged v tail l logged =
      let s = logged.stands in
      let w : Device = bwrite (name tail) (v.cache (start + tail + 1)) v in
      let kept : (x : ℕ) → in_log start size x ≡ true → w.disk x ≡ v.disk x =
        λ x o. let ne = apart x (name tail) o (s.targets tail l) in ground arith in
      let kept_cache : (x : ℕ) → in_log start size x ≡ true → w.cache x ≡ v.cache x =
        λ x o. let ne = apart x (name tail) o (s.targets tail l) in ground arith in
      let head : w.disk start ≡ v.disk start = kept start (
        subst (λ x. in_log start size x ≡ true) (omega arith)
          (in_log_at start size 0 (let f = s.fits in omega arith))) in
      record {
        stands = record {
          fits = s.fits;
          count = ap (λ b. b 0) head ∙ s.count;
          names = λ i u. ap (λ b. b (i + 1)) head ∙ s.names i u;
          targets = s.targets;
          copies = λ i u. kept (start + i + 1) (in_log_place i u s.fits) ∙ s.copies i u;
          homes = λ b o. elim (ℕ_discrete b (name tail)) [
            | yes e ↦ inr (tail, l, sym e)
            | no d ↦ elim (s.homes b o) [ inl p ↦ inl (ground arith) | inr q ↦ inr q ]
          ];
        };
        cached = λ i u. kept_cache (start + i + 1) (in_log_place i u s.fits) ∙ logged.cached i u;
      }

  pub record Installed (rounds tail : ℕ) (v w : Device) : Type 0 where
    pub logged : IsLogged w
    pub power : w.power ≡ v.power - rounds
    pub settled : (b : ℕ) → v.disk b ≡ c b → w.disk b ≡ c b
    pub cache_settled : (b : ℕ) → v.cache b ≡ c b → w.cache b ≡ c b
    pub cache_done : (i : ℕ) → tail ≤ i → i < tail + rounds → w.cache (name i) ≡ c (name i)
    pub done : (i : ℕ) → tail ≤ i → i < tail + rounds → 0 < w.power → w.disk (name i) ≡ c (name i)

  pub install_from-Installed :
      (recovering : Bool) (rounds tail : ℕ) (v : Device)
      → tail + rounds ≤ n
      → IsLogged v
      → Installed rounds tail v (install_from rounds tail recovering start name v)
  unfolding install_from
  install_from-Installed recovering zero tail v l logged = record {
    logged = logged;
    power = omega arith;
    settled = λ b h. h;
    cache_settled = λ b h. h;
    cache_done = λ i low high. absurd (omega arith);
    done = λ i low high p. absurd (omega arith);
  }
  install_from-Installed recovering (suc rounds) tail v l logged =
      let w : Device = bwrite (name tail) (v.cache (start + tail + 1)) v in
      let v' : Device = record w {
        pins = if recovering then w.pins else (bunpin (name tail) w).pins;
      } in
      let one = bwrite-IsLogged v tail (omega arith) logged in
      let rest =
        install_from-Installed recovering rounds (tail + 1) v' (omega arith)
          (record { stands = one.stands; cached = one.cached }) in
      let copy : v.cache (start + tail + 1) ≡ c (name tail) = logged.cached tail (omega arith) in
      let value : (b : ℕ) → b ≡ name tail → v.cache (start + tail + 1) ≡ c b =
        λ b e. copy ∙ ap c (sym e) in
      record {
        logged = rest.logged;
        power = rest.power ∙ omega arith;
        settled = λ b h. rest.settled b (elim (ℕ_discrete b (name tail)) [
          | yes e ↦ let s = value b e in ground arith
          | no d ↦ ground arith
        ]);
        cache_settled = λ b h. rest.cache_settled b (elim (ℕ_discrete b (name tail)) [
          | yes e ↦ let s = value b e in ground arith
          | no d ↦ ground arith
        ]);
        cache_done = λ i low high. elim (ℕ_discrete i tail) [
          | yes e ↦
              rest.cache_settled (name i)
                (let s = value (name i) (ap name e) in let e' = ap name e in ground arith)
          | no d ↦ rest.cache_done i (omega arith) (omega arith)
        ];
        done = λ i low high p. elim (ℕ_discrete i tail) [
          | yes e ↦
              let on : 0 < v.power = let q = rest.power in omega arith in
              rest.settled (name i)
                (let s = value (name i) (ap name e) in let e' = ap name e in ground arith)
          | no d ↦ rest.done i (omega arith) (omega arith) p
        ];
      }
