-- ===== src/Pipe/Fifo.antt =====
-- Project-2, kernel/pipe.c: what comes out of a pipe is what went in, in the same order.
use cse_536_advanced_operati.Base.{
  ℕ, ◌-◌, ◌≡◌, sym, ap, ◌∙◌, subst, ◌⊎◌, inl, inr, Bool, true, Option, List, [], ◌++◌,
}
use mathlib.Core.List.{append-nil, append_assoc}
use cse_536_advanced_operati.Pipe.{Pipe, Written, wrote, full, write_from, read_from}
use cse_536_advanced_operati.Pipe.Queue.{contents, IsValid}
use cse_536_advanced_operati.Pipe.Loops.{
  taken, Appended, Writes, done, blocked, denied, write_from-Writes, read_from-Reads,
}

abbrev Stops : ℕ → Pipe → Written → Type 0
Stops j q w = (w ≡ wrote j q) ⊎ (w ≡ full j q)

Appended-same :
    (input : ℕ → Option ℕ) (i rounds : ℕ) (p : Pipe) (j j' : ℕ) (q q' : Pipe)
    → j ≡ j'
    → q ≡ q'
    → Appended input i rounds p j q
    → Appended input i rounds p j' q'
Appended-same input i rounds p j j' q q' ej eq a =
    subst (λ k. Appended input i rounds p k q') ej (subst (Appended input i rounds p j) eq a)

-- What a loop that returned or sleeps at byte `j` has written.
stopped :
    (input : ℕ → Option ℕ) (i rounds : ℕ) (p : Pipe) (w : Written) (j : ℕ) (q : Pipe)
    → Writes input i rounds p w
    → Stops j q w
    → Appended input i rounds p j q
stopped input i rounds p _ j q (done j' q' a why) (inl e) =
    Appended-same input i rounds p j' j q' q (cc (e)) (cc (e)) a
stopped input i rounds p _ j q (done j' q' a why) (inr e) = absurd (cc)
stopped input i rounds p _ j q (blocked j' q' a f) (inl e) = absurd (cc)
stopped input i rounds p _ j q (blocked j' q' a f) (inr e) =
    Appended-same input i rounds p j' j q' q (cc (e)) (cc (e)) a
stopped input i rounds p _ j q (denied j' q' a) (inl e) = absurd (cc)
stopped input i rounds p _ j q (denied j' q' a) (inr e) = absurd (cc)

-- A pipe in use: calls of pipewrite() that return or sleep, and calls of piperead(), with the bytes
-- that went in and the bytes that came out.
pub data Run (p : Pipe) : List ℕ → List ℕ → Pipe → Type 0 where
  opened : Run p [] [] p
  returns :
      {xs ys : List ℕ} {q r : Pipe}
      → (rounds i j : ℕ) (input : ℕ → Option ℕ) (killed : Bool) → Run p xs ys q
      → write_from rounds i input killed q ≡ wrote j r
      → Run p (xs ++ taken input i (j - i)) ys r
  sleeps :
      {xs ys : List ℕ} {q r : Pipe}
      → (rounds i j : ℕ) (input : ℕ → Option ℕ) (killed : Bool) → Run p xs ys q
      → write_from rounds i input killed q ≡ full j r
      → Run p (xs ++ taken input i (j - i)) ys r
  reads :
      {xs ys : List ℕ} {q : Pipe}
      → (rounds i : ℕ) (can_copy : ℕ → Bool) → Run p xs ys q
      → ((j : ℕ) → can_copy j ≡ true)
      → Run p xs (ys ++ (read_from rounds i can_copy q).0) (read_from rounds i can_copy q).1

abbrev IsFifo : Pipe → List ℕ → List ℕ → Pipe → Type 0
IsFifo p xs ys q = IsValid q × (contents p ++ xs ≡ ys ++ contents q)

write-IsFifo :
    (p : Pipe) (xs ys : List ℕ) (q r : Pipe) (rounds i j : ℕ) (input : ℕ → Option ℕ) (killed : Bool)
    → IsFifo p xs ys q
    → Stops j r (write_from rounds i input killed q)
    → IsFifo p (xs ++ taken input i (j - i)) ys r
write-IsFifo p xs ys q r rounds i j input killed (valid, same) stops =
    let a =
      stopped input i rounds q (write_from rounds i input killed q) j r
        (write_from-Writes input rounds i killed q valid) stops in
    let new = taken input i (j - i) in
    (
      a.valid,
      sym (append_assoc (contents p) xs new)
          ∙ ap (λ l. l ++ new) same
          ∙ append_assoc ys (contents q) new
          ∙ ap (λ l. ys ++ l) (sym a.bytes),
    )

-- In every run of pipewrite() and piperead() in which copyout() works, the bytes that came out
-- followed by those in the pipe are the bytes that were in it followed by those that went in, and
-- there never are more than PIPESIZE in it.
pub Run-fifo :
    (p : Pipe) {xs ys : List ℕ} {q : Pipe}
    → IsValid p
    → Run p xs ys q
    → IsValid q × (contents p ++ xs ≡ ys ++ contents q)
Run-fifo p valid opened = (valid, append-nil (contents p))
Run-fifo p valid (returns {xs} {ys} {q} {r} rounds i j input killed before e) =
    write-IsFifo p xs ys q r rounds i j input killed (Run-fifo p valid before) (inl e)
Run-fifo p valid (sleeps {xs} {ys} {q} {r} rounds i j input killed before e) =
    write-IsFifo p xs ys q r rounds i j input killed (Run-fifo p valid before) (inr e)
Run-fifo p valid (reads {xs} {ys} {q} rounds i can_copy before all) =
    let (valid', same) = Run-fifo p valid before in
    let r = read_from-Reads rounds i can_copy q all valid' in
    let out = read_from rounds i can_copy q in
    (r.valid, same ∙ ap (λ l. ys ++ l) r.bytes ∙ sym (append_assoc ys out.0 (contents out.1)))
