-- ===== src/Paging/Swap/Disk.antt =====
-- Project-2, kernel/pfault.c: what the loops of the swap area leave on the disk and in memory.
use cse_536_advanced_operati.Base.{
  ℕ, ◌+◌, ◌-◌, ◌*◌, ◌/◌, ◌%◌, ◌<◌, ◌≡◌, refl, ap, ap₂, ◌∙◌, true, ◌&&◌, ltb, leb, ◌==◌,
  if◌then◌else◌, arith,
}
use cse_536_advanced_operati.Paging.State.{Kernel, psa_start}
use cse_536_advanced_operati.Paging.Swap.{write_page, read_page}

-- The four rounds write one block, with the first 1024 bytes of the page.
pub disk-write_page :
    (b src : ℕ) (k : Kernel) (x j : ℕ)
    → (write_page 4 0 b src k).disk x j
      ≡ (if x == psa_start + b && ltb j 1024 then k.memory.byte (src + j) else k.disk x j)
unfolding write_page
disk-write_page b src k x j = ground arith

pub tracker-write_page :
    (b src : ℕ) (k : Kernel) (x : ℕ)
    → (write_page 4 0 b src k).psa_tracker x
      ≡ (if leb b x && ltb x (b + 4) then true else k.psa_tracker x)
unfolding write_page
tracker-write_page b src k x = ground arith

pub memory-write_page : (b src : ℕ) (k : Kernel) → (write_page 4 0 b src k).memory ≡ k.memory
unfolding write_page
memory-write_page b src k = refl

pub proc-write_page : (b src : ℕ) (k : Kernel) → (write_page 4 0 b src k).proc ≡ k.proc
unfolding write_page
proc-write_page b src k = refl

pub groups-write_page : (b src : ℕ) (k : Kernel) → (write_page 4 0 b src k).groups ≡ k.groups
unfolding write_page
groups-write_page b src k = refl

-- The four rounds read four blocks in turn.
pub byte-read_page :
    (b dst : ℕ) (k : Kernel) (j : ℕ)
    → j < 4096
    → (read_page 4 0 b dst k).memory.byte (dst + j) ≡ k.disk (psa_start + (b + j / 1024)) (j % 1024)
unfolding read_page
byte-read_page b dst k j u =
    let block : (c : ℕ)
        → j / 1024 ≡ c
        → k.disk (psa_start + (b + c)) ((dst + j) - (dst + c * 1024))
          ≡ k.disk (psa_start + (b + j / 1024)) (j % 1024) =
      λ c e. ap₂ k.disk (omega arith) (omega arith) in
    let first = block 0 in
    let second = block 1 in let third = block 2 in let fourth = block 3 in ground arith

-- A page that is written to the swap area and read back from it has its first 1024 bytes again; the
-- others are those that the three blocks behind the first had before.
pub read_page-write_page :
    (b src dst : ℕ) (k : Kernel) (j : ℕ)
    → j < 4096
    → (read_page 4 0 b dst (write_page 4 0 b src k)).memory.byte (dst + j) ≡ (
        if ltb j 1024
        then k.memory.byte (src + j)
        else k.disk (psa_start + (b + j / 1024)) (j % 1024))
read_page-write_page b src dst k j u =
    let low : j < 1024 → k.memory.byte (src + j % 1024) ≡ k.memory.byte (src + j) =
      λ l. ap k.memory.byte (omega arith) in
    byte-read_page b dst (write_page 4 0 b src k) j u
    ∙ disk-write_page b src k (psa_start + (b + j / 1024)) (j % 1024)
    ∙ ground arith
