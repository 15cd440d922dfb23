-- ===== src/Log/Commit/Copies.antt =====
-- Project-2, kernel/log.c: what write_log() leaves on the disk and in the cache.
use cse_536_advanced_operati.Base.{
  ℕ, zero, suc, ◌+◌, ◌-◌, ◌<◌, ◌≤◌, ◌≡◌, refl, sym, ap, ◌∙◌, ◌⊎◌, inl, inr, arith, ℕ_discrete,
}
use cse_536_advanced_operati.Log.State.{Device, bwrite}
use cse_536_advanced_operati.Log.Commit.{copy_to_log}

-- Block `x` is none of those behind `low` up to `high`.
abbrev pub Outside : ℕ → ℕ → ℕ → Type 0
Outside low high x = (x ≤ low) ⊎ (high < x)

module _ (start : ℕ) (block : ℕ → ℕ) where
  -- The blocks from `tail` to `tail + rounds` have their copies in the log.
  pub record Copied (rounds tail : ℕ) (v w : Device) : Type 0 where
    pub power : w.power ≡ v.power - rounds
    pub disk : (x : ℕ) → Outside (start + tail) (start + tail + rounds) x → w.disk x ≡ v.disk x
    pub cache : (x : ℕ) → Outside (start + tail) (start + tail + rounds) x → w.cache x ≡ v.cache x
    pub copies :
        (i : ℕ) → tail ≤ i → i < tail + rounds → w.cache (start + i + 1) ≡ v.cache (block i)
    pub written :
        (i : ℕ)
        → tail ≤ i
        → i < tail + rounds
        → 0 < w.power
        → w.disk (start + i + 1) ≡ v.cache (block i)

  pub copy_to_log-Copied :
      (rounds tail : ℕ) (v : Device)
      → ((i : ℕ) → tail ≤ i → i < tail + rounds → Outside start (start + tail + rounds) (block i))
      → Copied rounds tail v (copy_to_log rounds tail start block v)
  unfolding copy_to_log
  copy_to_log-Copied zero tail v apart = record {
    power = omega arith;
    disk = λ x o. refl;
    cache = λ x o. refl;
    copies = λ i l u. absurd (omega arith);
    written = λ i l u p. absurd (omega arith);
  }
  copy_to_log-Copied (suc rounds) tail v apart =
      let v' : Device = bwrite (start + tail + 1) (v.cache (block tail)) v in
      let rest : Copied rounds (tail + 1) v' (copy_to_log rounds (tail + 1) start block v') =
        copy_to_log-Copied rounds (tail + 1) v' (λ i l u.
          elim (apart i (omega arith) (omega arith)) [
            | inl a ↦ inl a
            | inr b ↦ inr (omega arith)
          ]) in
      let shift : (x : ℕ)
          → Outside (start + tail) (start + tail + suc rounds) x
          → Outside (start + (tail + 1)) (start + (tail + 1) + rounds) x =
        λ x o. elim o [ inl a ↦ inl (omega arith) | inr b ↦ inr (omega arith) ] in
      let same : (i : ℕ) → i ≡ tail → v.cache (block tail) ≡ v.cache (block i) =
        λ i e. ap (λ k. v.cache (block k)) (sym e) in
      let source : (i : ℕ)
          → tail ≤ i
          → i < tail + suc rounds
          → v'.cache (block i) ≡ v.cache (block i) =
        λ i l u. let o = apart i l u in ground arith in
      record {
        power = rest.power ∙ omega arith;
        disk = λ x o. rest.disk x (shift x o) ∙ ground arith;
        cache = λ x o. rest.cache x (shift x o) ∙ ground arith;
        copies = λ i l u. elim (ℕ_discrete i tail) [
          | yes e ↦
              rest.cache (start + i + 1) (inl (omega arith)) ∙ (let s = same i e in ground arith)
          | no d ↦ rest.copies i (omega arith) (omega arith) ∙ source i l u
        ];
        written = λ i l u p. elim (ℕ_discrete i tail) [
          | yes e ↦
              let on : 0 < v.power = let q = rest.power in omega arith in
              rest.disk (start + i + 1) (inl (omega arith)) ∙ (let s = same i e in ground arith)
          | no d ↦ rest.written i (omega arith) (omega arith) p ∙ source i l u
        ];
      }
