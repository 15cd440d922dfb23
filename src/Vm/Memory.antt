-- ===== src/Vm/Memory.antt =====
-- Physical memory and its page allocator: kernel/string.c (memset, memmove) and kernel/kalloc.c of
-- Project-4 (Project-2 has the same text). The list of free pages, which the kernel threads
-- through the pages themselves, is a list of page addresses beside the bytes.
use cse_536_advanced_operati.Base.{
  ℕ, ◌+◌, ◌-◌, ◌%◌, ◌≤◌, ◌<◌, ◌≡◌, refl, not, ◌&&◌, ◌||◌, Option, none, some, List, [], ◌∷◌, ltb,
  leb, ◌==◌, if◌then◌else◌, Outcome, ret, panic,
}

abbrev pub page_size : ℕ
page_size = 4096

-- KERNBASE + 128 MB
abbrev pub phystop : ℕ
phystop = 0x8800_0000

-- `end_addr` is the linker's symbol `end`, the first address after the kernel.
pub record Memory : Type 0 where
  pub byte : ℕ → ℕ
  pub freelist : List ℕ
  pub end_addr : ℕ

unfoldable pub memset : (ℕ → ℕ) → ℕ → ℕ → ℕ → ℕ → ℕ
memset byte dst c n a = if leb dst a && ltb a (dst + n) then c % 256 else byte a

-- The source reads every byte before a copy can overwrite it, in either direction.
unfoldable pub memmove : (ℕ → ℕ) → ℕ → ℕ → ℕ → ℕ → ℕ
memmove byte dst src n a = if leb dst a && ltb a (dst + n) then byte (src + (a - dst)) else byte a

-- The address of a page filled with junk, or `none` for a null pointer.
unfoldable pub take_page : List ℕ → Memory → Option ℕ × Memory
unfolding memset
take_page [] m = (none, m)
take_page (r ∷ rest) m = (some r, record m { byte = memset m.byte r 5 page_size; freelist = rest })

unfoldable pub kalloc : Memory → Option ℕ × Memory
unfolding take_page
kalloc m = take_page m.freelist m

-- Where a page is free, kalloc() gives the first one.
pub kalloc_first :
    (m : Memory) (r : ℕ) (rest : List ℕ)
    → m.freelist ≡ r ∷ rest
    → kalloc m ≡ (some r, record m { byte = memset m.byte r 5 page_size; freelist = rest })
unfolding kalloc take_page
kalloc_first m r rest free = rw free refl

unfoldable pub kfree : ℕ → Memory → Outcome Memory
unfolding memset
kfree pa m =
    if not (pa % page_size == 0) || ltb pa m.end_addr || leb phystop pa
    then panic
    else ret (record m { byte = memset m.byte pa 1 page_size; freelist = pa ∷ m.freelist })

-- A page that may stand in the free list.
pub record IsPage (m : Memory) (pa : ℕ) : Type 0 where
  pub aligned : pa % page_size ≡ 0
  pub above : m.end_addr ≤ pa
  pub below : pa < phystop
