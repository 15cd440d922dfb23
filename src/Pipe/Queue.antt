-- ===== src/Pipe/Queue.antt =====
-- Project-2, kernel/pipe.c: a pipe is a queue of at most PIPESIZE bytes, also where its counters
-- wrap.
use cse_536_advanced_operati.Base.{
  ℕ, zero, suc, ◌+◌, ◌-◌, ◌%◌, ◌^◌, ◌<◌, ◌≤◌, ◌≡◌, ◌≢◌, refl, ap, ap₂, ◌∙◌, false, List, [], ◌∷◌,
  ◌++◌, arith, if_true, if_false,
}
use cse_536_advanced_operati.Pipe.{Pipe, pipesize, put, is_full, is_empty, push, pop}

-- The `n` bytes of the ring from counter `h` on.
unfoldable pub window : (ℕ → ℕ) → ℕ → ℕ → List ℕ
window bytes h zero = []
window bytes h (suc n) = bytes (h % pipesize) ∷ window bytes ((h + 1) % 2 ^ 32) n

-- nwrite - nread on uints.
abbrev pub count : Pipe → ℕ
count p = (p.nwrite + (2 ^ 32 - p.nread)) % 2 ^ 32

unfoldable pub contents : Pipe → List ℕ
contents p = window p.bytes p.nread (count p)

pub record IsValid (p : Pipe) : Type 0 where
  pub nread : p.nread < 2 ^ 32
  pub nwrite : p.nwrite < 2 ^ 32
  pub fits : count p ≤ pipesize

-- A byte behind the window does not change it.
window-put :
    (bytes : ℕ → ℕ) (x ch h n : ℕ)
    → h < 2 ^ 32
    → ((j : ℕ) → j < n → (h + j) % pipesize ≢ x)
    → window (put bytes x ch) h n ≡ window bytes h n
unfolding window
window-put bytes x ch h zero small apart = refl
window-put bytes x ch h (suc n) small apart =
    let first = apart 0 (omega arith) in
    let ne : h % pipesize ≢ x = λ e. first (omega arith) in
    ap₂ ◌∷◌ (if_false ch (bytes (h % pipesize)) (ground arith)) (
      window-put bytes x ch ((h + 1) % 2 ^ 32) n (omega arith)
        (λ j u e. apart (j + 1) (omega arith) (omega arith)))

-- One byte more at the end.
window-suc :
    (bytes : ℕ → ℕ) (h n : ℕ)
    → h < 2 ^ 32
    → window bytes h (n + 1) ≡ window bytes h n ++ (bytes ((h + n) % 2 ^ 32 % pipesize) ∷ [])
unfolding window
window-suc bytes h zero small = ap (λ k. bytes k ∷ []) (omega arith)
window-suc bytes h (suc n) small =
    ap (window bytes h) (let t : suc n + 1 ≡ suc (n + 1) = omega arith in t)
    ∙ ap (λ l. bytes (h % pipesize) ∷ l) (window-suc bytes ((h + 1) % 2 ^ 32) n (omega arith))
    ∙ ap (λ k. bytes (h % pipesize) ∷ (window bytes ((h + 1) % 2 ^ 32) n ++ (bytes k ∷ [])))
        (omega arith)

pub push-IsValid : (ch : ℕ) (p : Pipe) → IsValid p → is_full p ≡ false → IsValid (push ch p)
unfolding push
push-IsValid ch p valid room = record {
  nread = valid.nread;
  nwrite = omega arith;
  fits = ground arith;
}

-- A byte that is written goes to the end.
pub contents-push :
    (ch : ℕ) (p : Pipe)
    → IsValid p
    → is_full p ≡ false
    → contents (push ch p) ≡ contents p ++ (ch ∷ [])
unfolding contents push
contents-push ch p valid room =
    let n = count p in
    let small : n < pipesize = ground arith in
    let bytes = put p.bytes (p.nwrite % pipesize) ch in
    let place : (p.nread + n) % 2 ^ 32 ≡ p.nwrite = omega arith in
    ap (window bytes p.nread) (let t : count (push ch p) ≡ n + 1 = ground arith in t)
    ∙ window-suc bytes p.nread n valid.nread
    ∙ ap₂ (λ l x. l ++ (x ∷ []))
        (window-put p.bytes (p.nwrite % pipesize) ch p.nread n valid.nread (λ j u e. omega arith))
        (ap (λ k. bytes (k % pipesize)) place
          ∙ if_true ch (p.bytes (p.nwrite % pipesize)) (ground arith))

-- A byte that is read is the first.
pub contents-pop :
    (p : Pipe)
    → IsValid p
    → is_empty p ≡ false
    → (IsValid (pop p)) × (contents p ≡ p.bytes (p.nread % pipesize) ∷ contents (pop p))
unfolding contents pop window
contents-pop p valid some_left =
    let ne : p.nread ≢ p.nwrite = λ e. ground arith in
    let more : count p ≡ suc (count (pop p)) = omega arith in
    (
      record { nread = omega arith; nwrite = valid.nwrite; fits = omega arith },
      ap (window p.bytes p.nread) more,
    )
