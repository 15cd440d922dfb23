-- ===== src/Pipe/Loops.antt =====
-- Project-2, kernel/pipe.c: what the loops of pipewrite() and piperead() leave in the pipe.
use cse_536_advanced_operati.Base.{
  ℕ, zero, suc, ◌+◌, ◌-◌, ◌%◌, ◌≤◌, ◌≡◌, refl, sym, ap, ◌∙◌, subst, ◌⊎◌, inl, inr, Bool, true,
  false, Option, none, some, List, [], ◌∷◌, ◌++◌, length, arith, Bool-cases, Option-cases, if_true,
  if_false,
}
use mathlib.Core.List.{append-nil, append_assoc}
use cse_536_advanced_operati.Pipe.{
  Pipe, pipesize, is_full, is_empty, push, pop, Written, wrote, full, refused, cannot_write,
  or_stop, write_from, read_from, with_byte,
}
use cse_536_advanced_operati.Pipe.Queue.{
  contents, IsValid, push-IsValid, contents-push, contents-pop,
}

abbrev or_zero : Option ℕ → ℕ
or_zero none = 0
or_zero (some ch) = ch

-- The `n` bytes of the caller from byte `i` on.
unfoldable pub taken : (ℕ → Option ℕ) → ℕ → ℕ → List ℕ
taken input i zero = []
taken input i (suc n) = or_zero (input i) ∷ taken input (i + 1) n

module _ (input : ℕ → Option ℕ) where
  -- The bytes from `i` to `j` are at the end of the pipe.
  pub record Appended (i rounds : ℕ) (p : Pipe) (j : ℕ) (q : Pipe) : Type 0 where
    pub low : i ≤ j
    pub high : j ≤ i + rounds
    pub valid : IsValid q
    pub bytes : contents q ≡ contents p ++ taken input i (j - i)

  -- How a loop that writes ends: it has written all or cannot read the next byte, or the pipe is
  -- full, or it is refused behind some bytes.
  pub data Writes (i rounds : ℕ) (p : Pipe) : Written → Type 0 where
    done :
        (j : ℕ) (q : Pipe)
        → Appended i rounds p j q
        → (j ≡ i + rounds) ⊎ (input j ≡ none)
        → Writes i rounds p (wrote j q)
    blocked :
        (j : ℕ) (q : Pipe)
        → Appended i rounds p j q
        → is_full q ≡ true
        → Writes i rounds p (full j q)
    denied : (j : ℕ) (q : Pipe) → Appended i rounds p j q → Writes i rounds p (refused q)

  nothing : (i rounds : ℕ) (p : Pipe) → IsValid p → Appended i rounds p i p
  unfolding taken
  nothing i rounds p valid = record {
    low = omega arith;
    high = omega arith;
    valid = valid;
    bytes =
        sym (append-nil (contents p))
        ∙ ap (λ n. contents p ++ taken input i n) (let t : 0 ≡ i - i = omega arith in t);
  }

  one_more :
      (i rounds ch : ℕ) (p : Pipe) (j : ℕ) (q : Pipe)
      → IsValid p
      → is_full p ≡ false
      → input i ≡ some ch
      → Appended (i + 1) rounds (push ch p) j q
      → Appended i (suc rounds) p j q
  unfolding taken
  one_more i rounds ch p j q valid room e a = record {
    low = let l = a.low in omega arith;
    high = let h = a.high in omega arith;
    valid = a.valid;
    bytes =
        a.bytes
        ∙ ap (λ l. l ++ taken input (i + 1) (j - (i + 1))) (contents-push ch p valid room)
        ∙ append_assoc (contents p) (ch ∷ []) (taken input (i + 1) (j - (i + 1)))
        ∙ ap (λ x. contents p ++ (or_zero x ∷ taken input (i + 1) (j - (i + 1)))) (sym e)
        ∙ ap (λ n. contents p ++ taken input i n)
            (let l = a.low in let t : suc (j - (i + 1)) ≡ j - i = omega arith in t);
  }

  Writes-more :
      (i rounds ch : ℕ) (p : Pipe) (w : Written)
      → IsValid p
      → is_full p ≡ false
      → input i ≡ some ch
      → Writes (i + 1) rounds (push ch p) w
      → Writes i (suc rounds) p w
  Writes-more i rounds ch p _ valid room e (done j q a why) =
      done j q (one_more i rounds ch p j q valid room e a)
        (elim why [ inl all ↦ inl (omega arith) | inr stop ↦ inr stop ])
  Writes-more i rounds ch p _ valid room e (blocked j q a f) =
      blocked j q (one_more i rounds ch p j q valid room e a) f
  Writes-more i rounds ch p _ valid room e (denied j q a) =
      denied j q (one_more i rounds ch p j q valid room e a)

  pub write_from-Writes :
      (rounds i : ℕ) (killed : Bool) (p : Pipe)
      → IsValid p
      → Writes i rounds p (write_from rounds i input killed p)
  unfolding write_from
  write_from-Writes zero i killed p valid = done i p (nothing i 0 p valid) (inl (omega arith))
  write_from-Writes (suc rounds) i killed p valid =
      let go : ℕ → Written = λ ch. write_from rounds (i + 1) input killed (push ch p) in
      let more = or_stop (wrote i p) go (input i) in
      let none_yet = nothing i (suc rounds) p valid in
      elim (Bool-cases (cannot_write killed p)) [
        | inl closed ↦
            subst (Writes i (suc rounds) p) (sym (if_true (refused p) _ closed))
              (denied i p none_yet)
        | inr may ↦
            subst (Writes i (suc rounds) p) (sym (if_false (refused p) _ may))
              (elim (Bool-cases (is_full p)) [
                | inl f ↦
                    subst (Writes i (suc rounds) p) (sym (if_true (full i p) more f))
                      (blocked i p none_yet f)
                | inr room ↦
                    subst (Writes i (suc rounds) p) (sym (if_false (full i p) more room))
                      (elim (Option-cases (input i)) [
                        | inl e ↦
                            subst (Writes i (suc rounds) p) (ap (or_stop (wrote i p) go) (sym e))
                              (done i p none_yet (inr e))
                        | inr (ch, e) ↦
                            subst (Writes i (suc rounds) p) (ap (or_stop (wrote i p) go) (sym e)) (
                              Writes-more i rounds ch p (go ch) valid room e (
                                write_from-Writes rounds (i + 1) killed (push ch p)
                                  (push-IsValid ch p valid room)))
                      ])
              ])
      ]

-- The bytes that a loop reads are the first of the pipe, and it stops with all of its bytes or with
-- an empty pipe.
pub record Reads (rounds : ℕ) (p : Pipe) (r : List ℕ × Pipe) : Type 0 where
  pub valid : IsValid r.1
  pub bytes : contents p ≡ r.0 ++ contents r.1
  pub ends : (length r.0 ≡ rounds) ⊎ (is_empty r.1 ≡ true)

pub read_from-Reads :
    (rounds i : ℕ) (can_copy : ℕ → Bool) (p : Pipe)
    → ((j : ℕ) → can_copy j ≡ true)
    → IsValid p
    → Reads rounds p (read_from rounds i can_copy p)
unfolding read_from
read_from-Reads zero i can_copy p all valid = record {
  valid = valid;
  bytes = refl;
  ends = inl refl;
}
read_from-Reads (suc rounds) i can_copy p all valid =
    let ch = p.bytes (p.nread % pipesize) in
    let rest = read_from rounds (i + 1) can_copy (pop p) in
    elim (Bool-cases (is_empty p)) [
      | inl e ↦
          subst (Reads (suc rounds) p) (sym (if_true ([], p) _ e))
            (record { valid = valid; bytes = refl; ends = inr e })
      | inr some_left ↦
          let (valid', first) = contents-pop p valid some_left in
          let ih = read_from-Reads rounds (i + 1) can_copy (pop p) all valid' in
          subst (Reads (suc rounds) p)
            (sym (if_false ([], p) _ some_left ∙ if_true (with_byte ch rest) _ (all i)))
            (record {
              valid = ih.valid;
              bytes = first ∙ ap (λ l. ch ∷ l) ih.bytes;
              ends = elim ih.ends [ inl n ↦ inl (ap suc n) | inr e ↦ inr e ];
            })
    ]
