-- ===== src/Pipe/Tests.antt =====
-- Project-2, kernel/pipe.c: a pipe whose counters wrap, and the theorem at a run of it.
use cse_536_advanced_operati.Base.{
  ℕ, ◌+◌, ◌-◌, ◌^◌, ◌≡◌, refl, true, false, Option, some, List, [], ◌∷◌, ◌++◌, arith,
}
use cse_536_advanced_operati.Pipe.{Pipe, Written, is_full, push, pop, write_from, wrote, read_from}
use cse_536_advanced_operati.Pipe.Queue.{IsValid, contents}
use cse_536_advanced_operati.Pipe.Loops.{taken}
use cse_536_advanced_operati.Pipe.Fifo.{opened, returns, reads, Run-fifo}
use cse_536_advanced_operati.Pipe.Turns.{write_turns, Returned, write_turns_lem}

abbrev wrapping : Pipe
wrapping = record {
  bytes = λ k. 0;
  nread = 2 ^ 32 - 1;
  nwrite = 2 ^ 32 - 1;
  readopen = true;
  writeopen = true;
}

wrapping-IsValid : IsValid wrapping
wrapping-IsValid = record { nread = omega arith; nwrite = omega arith; fits = omega arith }

abbrev letters : ℕ → Option ℕ
letters k = some (k + 65)

abbrev three_in : Pipe
three_in = push 67 (push 66 (push 65 wrapping))

writes_three : write_from 3 0 letters false wrapping ≡ wrote 3 three_in
unfolding write_from push
writes_three = refl

abbrev two_out : List ℕ × Pipe
two_out = read_from 2 0 (λ j. true) three_in

reads_two : two_out.0 ≡ 65 ∷ 66 ∷ []
unfolding read_from push pop
reads_two = refl

Run-fifo_example :
    IsValid two_out.1
    × (contents wrapping ++ ([] ++ taken letters 0 (3 - 0))
        ≡ ([] ++ two_out.0) ++ contents two_out.1)
Run-fifo_example =
    Run-fifo wrapping wrapping-IsValid
      (reads 2 0 (λ j. true) (returns 3 0 3 letters false opened writes_three) (λ j. refl))

-- A pipe with no room.
abbrev brimful : Pipe
brimful = record wrapping { nwrite = 511 }

brimful-IsValid : IsValid brimful
brimful-IsValid = record { nread = omega arith; nwrite = omega arith; fits = omega arith }

brimful-is_full : is_full brimful ≡ true
brimful-is_full = refl

write_turns_lem_example :
    (w : Written) × (write_turns 5 1 3 letters false 0 brimful ≡ some w) × Returned letters 3 w
write_turns_lem_example =
    write_turns_lem 1 3 letters false 5 brimful (omega arith) brimful-IsValid (omega arith)
