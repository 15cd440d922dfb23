-- ===== src/Cache.antt =====
-- Project-2, kernel/bio.c: the buffer cache. The list of buffers has the most recently used one
-- first; a buffer that is in use is named by its device and block, as the pointers to it are.
pub mod View
mod Recycle
pub mod Bread
mod Unlink
pub mod Write
pub mod Free
mod Tests
use cse_536_advanced_operati.Base.{
  ℕ, zero, suc, ◌+◌, ◌-◌, ◌%◌, ◌^◌, Bool, true, false, not, ◌&&◌, Option, none, some, List, [], ◌∷◌,
  ◌==◌, if◌then◌else◌, Outcome, ret, panic, ◌>>=◌,
}
use cse_536_advanced_operati.Log.State.{Block, put}

-- struct buf, without its lock and links.
pub record Buf : Type 0 where
  pub valid : Bool
  pub dev : ℕ
  pub blockno : ℕ
  pub refcnt : ℕ
  pub bytes : Block

pub record Cache : Type 0 where
  pub bufs : List Buf
  pub disk : ℕ → Block

abbrev pub nbuf : ℕ
nbuf = 30

abbrev pub is_buf : ℕ → ℕ → Buf → Bool
is_buf dev blockno b = (b.dev == dev) && (b.blockno == blockno)

abbrev pub empty_buf : Buf
empty_buf = record { valid = false; dev = 0; blockno = 0; refcnt = 0; bytes = λ i. 0 }

-- The loop of binit().
unfoldable pub empty_bufs : ℕ → List Buf
empty_bufs zero = []
empty_bufs (suc n) = empty_buf ∷ empty_bufs n

unfoldable pub binit : (ℕ → Block) → Cache
binit disk = record { bufs = empty_bufs nbuf; disk = disk }

-- The first loop of bget().
unfoldable pub find_buf : ℕ → ℕ → List Buf → Option Buf
find_buf dev blockno [] = none
find_buf dev blockno (b ∷ bs) =
    let rest = find_buf dev blockno bs in if is_buf dev blockno b then some b else rest

-- A change to the buffer of a block.
unfoldable pub update : (Buf → Buf) → ℕ → ℕ → List Buf → List Buf
update f dev blockno [] = []
update f dev blockno (b ∷ bs) =
    let rest = update f dev blockno bs in if is_buf dev blockno b then f b ∷ bs else b ∷ rest

abbrev pub or_here : Buf → Buf → List Buf → Option (List Buf) → Option (List Buf)
or_here new b bs (some cs) = some (b ∷ cs)
or_here new b bs none = if b.refcnt == 0 then some (new ∷ bs) else none

-- The second loop of bget(), from the end of the list: the last buffer with no user is taken.
unfoldable pub recycle : Buf → List Buf → Option (List Buf)
recycle new [] = none
recycle new (b ∷ bs) = or_here new b bs (recycle new bs)

-- The count of the users, by 32 bits.
abbrev pub use_more : Buf → Buf
use_more b = record b { refcnt = (b.refcnt + 1) % 2 ^ 32 }

abbrev pub use_less : Buf → Buf
use_less b = record b { refcnt = (b.refcnt + (2 ^ 32 - 1)) % 2 ^ 32 }

-- A buffer as bget() takes it for a block. Its old contents, which bread() reads over since it is
-- not valid, are left out.
abbrev pub new_buf : ℕ → ℕ → Buf
new_buf dev blockno = record {
  valid = false;
  dev = dev;
  blockno = blockno;
  refcnt = 1;
  bytes = λ i. 0;
}

abbrev pub recycled : Option (List Buf) → Outcome (List Buf)
recycled none = panic
recycled (some bs) = ret bs

unfoldable pub bget_found : Option Buf → ℕ → ℕ → List Buf → Outcome (List Buf)
bget_found (some b) dev blockno bs = ret (update use_more dev blockno bs)
bget_found none dev blockno bs = recycled (recycle (new_buf dev blockno) bs)

unfoldable pub bget : ℕ → ℕ → List Buf → Outcome (List Buf)
bget dev blockno bs = bget_found (find_buf dev blockno bs) dev blockno bs

-- virtio_disk_rw() of a buffer that is not valid yet.
abbrev pub read_disk : (ℕ → Block) → Buf → Buf
read_disk disk b = if b.valid then b else record b { valid = true; bytes = disk b.blockno }

unfoldable pub bread : ℕ → ℕ → Cache → Outcome Cache
bread dev blockno c = bget dev blockno c.bufs >>= λ bs.
    ret (record c { bufs = update (read_disk c.disk) dev blockno bs })

-- The caller changes the contents of a buffer that it holds.
abbrev pub set_bytes : Block → Buf → Buf
set_bytes contents b = record b { bytes = contents }

unfoldable pub modify : Block → ℕ → ℕ → Cache → Cache
modify contents dev blockno c = record c { bufs = update (set_bytes contents) dev blockno c.bufs }

unfoldable pub write_found : Option Buf → Cache → Cache
write_found none c = c
write_found (some b) c = record c { disk = put c.disk b.blockno b.bytes }

unfoldable pub bwrite : ℕ → ℕ → Cache → Cache
bwrite dev blockno c = write_found (find_buf dev blockno c.bufs) c

-- The list without the buffer of a block.
unfoldable pub unlink : ℕ → ℕ → List Buf → List Buf
unlink dev blockno [] = []
unlink dev blockno (b ∷ bs) =
    let rest = unlink dev blockno bs in if is_buf dev blockno b then bs else b ∷ rest

-- brelse() of a buffer: without users it goes to the front.
unfoldable pub release_found : Option Buf → ℕ → ℕ → List Buf → List Buf
release_found none dev blockno bs = bs
release_found (some b) dev blockno bs =
    if (use_less b).refcnt == 0
    then use_less b ∷ unlink dev blockno bs
    else update use_less dev blockno bs

unfoldable pub brelse : ℕ → ℕ → Cache → Cache
brelse dev blockno c = record c {
  bufs = release_found (find_buf dev blockno c.bufs) dev blockno c.bufs;
}

unfoldable pub bpin : ℕ → ℕ → Cache → Cache
bpin dev blockno c = record c { bufs = update use_more dev blockno c.bufs }

unfoldable pub bunpin : ℕ → ℕ → Cache → Cache
bunpin dev blockno c = record c { bufs = update use_less dev blockno c.bufs }
