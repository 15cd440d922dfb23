-- ===== src/Pipe.antt =====
-- Project-2, kernel/pipe.c: a pipe and the loops of pipewrite() and piperead(), up to the point where
-- they return or sleep.
pub mod Queue
pub mod Loops
pub mod Fifo
pub mod Turns
mod Tests
use cse_536_advanced_operati.Base.{
  ℕ, zero, suc, ◌+◌, ◌-◌, ◌%◌, ◌^◌, Bool, true, false, not, ◌&&◌, ◌||◌, Option, none, some, List,
  [], ◌∷◌, ◌==◌, if◌then◌else◌,
}

abbrev pub pipesize : ℕ
pipesize = 512

-- struct pipe; the counters are uints.
pub record Pipe : Type 0 where
  pub bytes : ℕ → ℕ
  pub nread : ℕ
  pub nwrite : ℕ
  pub readopen : Bool
  pub writeopen : Bool

abbrev pub put : (ℕ → ℕ) → ℕ → ℕ → ℕ → ℕ
put f i v k = if k == i then v else f k

abbrev pub is_full : Pipe → Bool
is_full p = p.nwrite == (p.nread + pipesize) % 2 ^ 32

abbrev pub is_empty : Pipe → Bool
is_empty p = p.nread == p.nwrite

unfoldable pub push : ℕ → Pipe → Pipe
push ch p = record p {
  bytes = put p.bytes (p.nwrite % pipesize) ch;
  nwrite = (p.nwrite + 1) % 2 ^ 32;
}

unfoldable pub pop : Pipe → Pipe
pop p = record p { nread = (p.nread + 1) % 2 ^ 32 }

-- How a turn of pipewrite() at the pipe ends: it returns the number of bytes, it sleeps with the
-- pipe full, or it returns -1 since nobody reads or the process is killed.
pub data Written : Type 0 where
  wrote full : ℕ → Pipe → Written
  refused : Pipe → Written

abbrev pub cannot_write : Bool → Pipe → Bool
cannot_write killed p = not p.readopen || killed

abbrev pub or_stop : Written → (ℕ → Written) → Option ℕ → Written
or_stop stop go none = stop
or_stop stop go (some ch) = go ch

-- The loop with `rounds` bytes left from `i` on; `input i` is byte `i` of the caller's memory, if
-- copyin() can read it.
unfoldable pub write_from : ℕ → ℕ → (ℕ → Option ℕ) → Bool → Pipe → Written
write_from zero i input killed p = wrote i p
write_from (suc rounds) i input killed p =
    let more =
      or_stop (wrote i p) (λ ch. write_from rounds (i + 1) input killed (push ch p)) (input i) in
    if cannot_write killed p then refused p else if is_full p then full i p else more

-- pipewrite() of `n` bytes from the beginning, or from byte `i` on when it wakes up.
unfoldable pub pipewrite : ℕ → ℕ → (ℕ → Option ℕ) → Bool → Pipe → Written
pipewrite n i input killed p = write_from (n - i) i input killed p

-- How a turn of piperead() ends: with the bytes that it copied out, asleep, or with -1.
pub data Received : Type 0 where
  received : List ℕ → Pipe → Received
  empty failed : Pipe → Received

abbrev pub with_byte : ℕ → List ℕ × Pipe → List ℕ × Pipe
with_byte ch r = (ch ∷ r.0, r.1)

-- The loop with `rounds` bytes left from `i` on; `can_copy i` says whether copyout() of byte `i` works.
-- The byte at which it does not is gone from the pipe.
unfoldable pub read_from : ℕ → ℕ → (ℕ → Bool) → Pipe → List ℕ × Pipe
read_from zero i can_copy p = ([], p)
read_from (suc rounds) i can_copy p =
    let ch = p.bytes (p.nread % pipesize) in
    let rest = read_from rounds (i + 1) can_copy (pop p) in
    if is_empty p then ([], p) else if can_copy i then with_byte ch rest else ([], pop p)

unfoldable pub piperead : ℕ → (ℕ → Bool) → Bool → Pipe → Received
piperead n can_copy killed p =
    let r = read_from n 0 can_copy p in
    if is_empty p && p.writeopen then if killed then failed p else empty p else received r.0 r.1

-- pipeclose() of one end, and whether the pipe is freed.
unfoldable pub pipeclose : Bool → Pipe → Bool × Pipe
pipeclose writable p =
    let q = if writable then record p { writeopen = false } else record p { readopen = false } in
    (not q.readopen && not q.writeopen, q)
