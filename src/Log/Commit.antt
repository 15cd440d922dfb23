-- ===== src/Log/Commit.antt =====
-- Project-2, kernel/log.c: commit(), recover_from_log() and what they call.
pub mod Copies
pub mod Stands
pub mod Recover
pub mod Survive
pub mod Atomic
use cse_536_advanced_operati.Base.{
  ℕ, zero, suc, ◌+◌, ◌-◌, ◌*◌, ◌/◌, ◌%◌, ◌^◌, Bool, true, false, ltb, if◌then◌else◌,
}
use cse_536_advanced_operati.Log.State.{Block, Device, Log, put, bwrite, fill}

-- The loop of write_log(), with `rounds` of the blocks left from `tail` on.
unfoldable pub copy_to_log : ℕ → ℕ → ℕ → (ℕ → ℕ) → Device → Device
copy_to_log zero tail start block v = v
copy_to_log (suc rounds) tail start block v =
    copy_to_log rounds (tail + 1) start block (bwrite (start + tail + 1) (v.cache (block tail)) v)

unfoldable pub write_log : Log → Log
write_log l = record l { device = copy_to_log l.lh_n 0 l.start l.lh_block l.device }

-- refcnt-- on 32 bits.
abbrev pub bunpin : ℕ → Device → Device
bunpin b v = record v { pins = put v.pins b ((v.pins b + (2 ^ 32 - 1)) % 2 ^ 32) }

-- The loop of install_trans().
unfoldable pub install_from : ℕ → ℕ → Bool → ℕ → (ℕ → ℕ) → Device → Device
install_from zero tail recovering start block v = v
install_from (suc rounds) tail recovering start block v =
    let w = bwrite (block tail) (v.cache (start + tail + 1)) v in
    install_from rounds (tail + 1) recovering start block
      (record w { pins = if recovering then w.pins else (bunpin (block tail) w).pins })

unfoldable pub install_trans : Bool → Log → Log
install_trans recovering l = record l {
  device = install_from l.lh_n 0 recovering l.start l.lh_block l.device;
}

-- The header block with the count and the block numbers of the header in memory.
unfoldable pub header : ℕ → (ℕ → ℕ) → Block → Block
header n block old = fill n 0 1 block (put old 0 n)

unfoldable pub write_head : Log → Log
write_head l = record l {
  device = bwrite l.start (header l.lh_n l.lh_block (l.device.cache l.start)) l.device;
}

unfoldable pub read_head : Log → Log
read_head l =
    let lh = l.device.cache l.start in
    record l { lh_n = lh 0; lh_block = fill (lh 0) 0 0 (λ i. lh (i + 1)) l.lh_block }

-- `log.lh.n = 0` and write_head().
unfoldable pub clear_log : Log → Log
clear_log l = write_head (record l { lh_n = 0 })

unfoldable pub commit : Log → Log
commit l = if ltb 0 l.lh_n then clear_log (install_trans false (write_head (write_log l))) else l

unfoldable pub recover_from_log : Log → Log
recover_from_log l = clear_log (install_trans true (read_head l))

-- The machine starts again, with nothing in the cache and power for so many writes.
unfoldable pub reboot : ℕ → Device → Device
reboot power v = record { disk = v.disk; cache = v.disk; power = power; pins = λ b. 0 }

-- initlog() in a kernel that has just started.
unfoldable pub initlog : ℕ → ℕ → Device → Log
initlog start size v = recover_from_log (record {
  start = start;
  size = size;
  outstanding = 0;
  committing = false;
  lh_n = 0;
  lh_block = λ i. 0;
  device = v;
})
