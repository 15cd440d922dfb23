-- ===== src/Log/State.antt =====
-- Project-2, kernel/log.c: the log in memory, and the disk behind the buffer cache.
use cse_536_advanced_operati.Base.{
  ℕ, zero, suc, ◌+◌, ◌-◌, ◌<◌, ◌≤◌, ◌≡◌, refl, ap, ◌∙◌, Bool, ◌&&◌, ltb, leb, ◌==◌, if◌then◌else◌,
  arith, ℕ_discrete,
}

-- A block as its 256 words.
abbrev pub Block : Type 0
Block = ℕ → ℕ

abbrev pub log_size : ℕ
log_size = 30

abbrev pub max_op_blocks : ℕ
max_op_blocks = 10

-- The disk; what bread() shows of each block, from its buffer if it has one; the number of blocks
-- that are written before the power fails; the pins of the buffers.
pub record Device : Type 0 where
  pub disk : ℕ → Block
  pub cache : ℕ → Block
  pub power : ℕ
  pub pins : ℕ → ℕ

pub record Log : Type 0 where
  pub start : ℕ
  pub size : ℕ
  pub outstanding : ℕ
  pub committing : Bool
  pub lh_n : ℕ
  pub lh_block : ℕ → ℕ
  pub device : Device

abbrev pub put {ℓ} : {A : Type ℓ} → (ℕ → A) → ℕ → A → ℕ → A
put f i v k = if k == i then v else f k

-- The buffer of block `b` gets new contents and bwrite() writes it, if there still is power.
abbrev pub bwrite : ℕ → Block → Device → Device
bwrite b contents v = record v {
  cache = put v.cache b contents;
  disk = λ k. if k == b && ltb 0 v.power then contents else v.disk k;
  power = v.power - 1;
}

-- The blocks of the log, from its header on.
unfoldable pub in_log : ℕ → ℕ → ℕ → Bool
in_log start size b = leb start b && ltb b (start + size)

-- The loops over the block numbers of a header: word `i + shift` becomes `value i`.
unfoldable pub fill : ℕ → ℕ → ℕ → (ℕ → ℕ) → (ℕ → ℕ) → ℕ → ℕ
fill zero i shift value words = words
fill (suc rounds) i shift value words =
    fill rounds (i + 1) shift value (put words (i + shift) (value i))

pub fill_below :
    (rounds i shift : ℕ) (value words : ℕ → ℕ) (j : ℕ)
    → j < i + shift
    → fill rounds i shift value words j ≡ words j
unfolding fill
fill_below zero i shift value words j l = refl
fill_below (suc rounds) i shift value words j l =
    fill_below rounds (i + 1) shift value (put words (i + shift) (value i)) j (omega arith)
    ∙ ground arith

pub fill_at :
    (rounds i shift : ℕ) (value words : ℕ → ℕ) (j : ℕ)
    → i ≤ j
    → j < i + rounds
    → fill rounds i shift value words (j + shift) ≡ value j
unfolding fill
fill_at zero i shift value words j l u = absurd (omega arith)
fill_at (suc rounds) i shift value words j l u = elim (ℕ_discrete j i) [
  | yes e ↦
      let at : value i ≡ value j = ap value (omega arith) in
      fill_below rounds (i + 1) shift value (put words (i + shift) (value i)) (j + shift)
        (omega arith)
      ∙ ground arith
  | no d ↦
      fill_at rounds (i + 1) shift value (put words (i + shift) (value i)) j (omega arith)
        (omega arith)
]
