-- ===== src/Boot/Start.antt =====
-- Project-1, bootloader/start.c: the secure boot test and start(), up to the jump to the kernel.
pub mod Secure
pub mod Boots
use cse_536_advanced_operati.Base.{
  ℕ, zero, suc, ◌+◌, ◌-◌, ◌*◌, ◌/◌, ◌%◌, ◌^◌, ◌<◌, ◌≡◌, Bool, true, false, leb, ltb, ◌==◌,
  if◌then◌else◌, set_bit, u64, Outcome, ret, panic, ◌>>=◌,
}
use cse_536_advanced_operati.Boot.Elf.{
  Kernel, normal, recovery, disk, read_number, find_kernel_size, find_kernel_entry_addr,
}
use cse_536_advanced_operati.Boot.Load.{put_bytes, load_normal, load_recovery}

-- Which of the macros KERNELPMP1 and KERNELPMP2 the build defines.
pub data Isolation : Type 0 where
  all_memory : Isolation
  kernelpmp1 : Isolation
  kernelpmp2 : Isolation

-- What the build and the linker fix, and the hash function: `sha256` takes the bytes and their
-- number, and gives the bytes of the digest. `end_symbol` is the address of `end`.
pub record Build : Type 0 where
  pub isolation : Isolation
  pub trusted_kernel_hash : ℕ → ℕ
  pub sha256 : (ℕ → ℕ) → ℕ → ℕ → ℕ
  pub end_symbol : ℕ

-- Memory and the registers of the hart that start() reads or writes.
pub record Hart : Type 0 where
  pub byte : ℕ → ℕ
  pub mhartid : ℕ
  pub tp : ℕ
  pub mstatus : ℕ
  pub satp : ℕ
  pub pmpaddr0 : ℕ
  pub pmpaddr1 : ℕ
  pub pmpaddr2 : ℕ
  pub pmpcfg0 : ℕ
  pub mepc : ℕ
  pub medeleg : ℕ
  pub mideleg : ℕ
  pub sie : ℕ

-- The system information table.
abbrev pub sys_info : ℕ
sys_info = 0x8008_0000

abbrev pub expected : ℕ
expected = sys_info + 32

abbrev pub observed : ℕ
observed = sys_info + 64

abbrev pub kernbase : ℕ
kernbase = 0x8000_0000

-- The bytes of a uint64.
abbrev pub put_u64 : (ℕ → ℕ) → ℕ → ℕ → ℕ → ℕ
put_u64 byte a v = put_bytes byte a 8 (λ i. v / 256 ^ i % 256)

-- The loop that compares the digests and copies the trusted one to the table.
unfoldable pub verify : (ℕ → ℕ) → ℕ → ℕ → (ℕ → ℕ) → Bool → Bool × (ℕ → ℕ)
verify trusted zero i byte ok = (ok, byte)
verify trusted (suc rounds) i byte ok =
    verify trusted rounds (i + 1) (put_bytes byte (expected + i) 1 (λ _. trusted i))
      (if byte (observed + i) == trusted i then ok else false)

-- The memory after sha256_final().
abbrev pub measure : Build → (ℕ → ℕ) → ℕ → ℕ
measure c byte =
    put_bytes byte observed 32
      (c.sha256 (λ i. byte (disk normal + i)) (find_kernel_size normal byte))

unfoldable pub setup_recovery_kernel : Hart → Outcome Hart
setup_recovery_kernel h = load_recovery h.byte >>= λ loaded.
    ret (record h { byte = loaded; mepc = find_kernel_entry_addr recovery h.byte })

unfoldable pub is_secure_boot : Build → Hart → Outcome (Bool × Hart)
is_secure_boot c h =
    let (ok, checked) = verify c.trusted_kernel_hash 32 0 (measure c h.byte) true in
    let h' = record h { byte = checked } in
    if ok then ret (true, h') else setup_recovery_kernel h' >>= λ recovered. ret (false, recovered)

-- The previous mode is set to supervisor mode, and paging is off.
unfoldable pub set_privilege : Hart → Hart
set_privilege h = record h {
  tp = h.mhartid;
  mstatus = h.mstatus - h.mstatus / 2 ^ 11 % 4 * 2 ^ 11 + 2 ^ 11;
  satp = 0;
}

-- A build that defines one macro of the two still allows all memory first.
unfoldable pub configure_pmp : Isolation → Hart → Hart
configure_pmp all_memory h = record h { pmpaddr0 = 0x3f_ffff_ffff_ffff; pmpcfg0 = 0xf }
configure_pmp kernelpmp1 h = record h {
  pmpaddr0 = (kernbase + 117 * 1024 * 1024) / 4;
  pmpcfg0 = 0xf;
}
configure_pmp kernelpmp2 h = record h {
  pmpaddr0 = (kernbase + 118 * 1024 * 1024) / 4;
  pmpaddr1 = (kernbase + 120 * 1024 * 1024) / 4 + 0x3ffff;
  pmpaddr2 = (kernbase + 126 * 1024 * 1024) / 4 + 0x3ffff;
  pmpcfg0 = 0x1f_1f0f;
}

-- From the label `out` on. `end` is declared as a uint64, so its value is what memory has there.
unfoldable pub finish : Build → Hart → Hart
finish c h =
    let dram = put_u64 (put_u64 h.byte (sys_info + 16) kernbase) (sys_info + 24) 0x8800_0000 in
    let base = put_u64 dram sys_info kernbase in
    record h {
      byte = put_u64 base (sys_info + 8) (read_number base c.end_symbol 8);
      medeleg = 0xffff;
      mideleg = 0xffff;
      sie = set_bit 9 (set_bit 5 (set_bit 1 h.sie));
    }

unfoldable pub boot_normal : Build → Hart → Outcome Hart
boot_normal c h = load_normal h.byte >>= λ loaded.
    ret (finish c (record h { byte = loaded; mepc = find_kernel_entry_addr normal h.byte }))

unfoldable pub start : Build → Hart → Outcome Hart
start c h = is_secure_boot c (configure_pmp c.isolation (set_privilege h)) >>= λ (secure, checked).
    if secure then boot_normal c checked else ret (finish c checked)
