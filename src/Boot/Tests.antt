-- ===== src/Boot/Tests.antt =====
-- Project-1, the bootloader on small disks, with a hash that takes 32 bytes of the kernel.
use cse_536_advanced_operati.Base.{
  ℕ, ◌+◌, ◌-◌, ◌%◌, ◌≡◌, ◌≢◌, refl, ltb, ◌==◌, if◌then◌else◌, ret, panic, arith,
}
use cse_536_advanced_operati.Boot.Elf.{
  normal, recovery, disk, read_number, find_kernel_size, find_kernel_load_addr,
}
use cse_536_advanced_operati.Boot.Load.{put_bytes, bsize, kernel_copy}
use cse_536_advanced_operati.Boot.Start.{Build, Hart, kernelpmp2, verify, start}
use cse_536_advanced_operati.Boot.Start.Secure.{IsTrusted, tested}
use cse_536_advanced_operati.Boot.Start.Boots.{IsLoadable, IsBooted, start_trusted, start_tampered}

-- Headers of a kernel of 5000 bytes that goes to 0x80100000 and starts there.
abbrev header : ℕ → ℕ
header i =
    if i == 26
    then 0x10
    else if i == 27
    then 0x80
    else if i == 32
    then 64
    else if i == 40
    then 0x88
    else if i == 41
    then 0x13
    else if i == 52
    then 64
    else if i == 146
    then 0x10
    else if i == 147
    then 0x80
    else 0

abbrev ram : ℕ → ℕ
ram a = if ltb a 0x8450_0000 then header (a - 0x8400_0000) else header (a - 0x8450_0000)

-- The hash of this kernel is 32 zeros.
abbrev build : ℕ → Build
build b = record {
  isolation = kernelpmp2;
  trusted_kernel_hash = λ i. b;
  sha256 = λ content n i. content (4096 + i);
  end_symbol = 0x8000_9000;
}

abbrev hart : Hart
hart = record {
  byte = ram;
  mhartid = 0;
  tp = 0;
  mstatus = 0x1800;
  satp = 8;
  pmpaddr0 = 0;
  pmpaddr1 = 0;
  pmpaddr2 = 0;
  pmpcfg0 = 0;
  mepc = 0;
  medeleg = 0;
  mideleg = 0;
  sie = 0;
}

size_normal : (b : ℕ) → find_kernel_size normal (tested (build b) ram) ≡ 5000
unfolding find_kernel_size read_number disk verify put_bytes
size_normal b = refl

size_recovery : (b : ℕ) → find_kernel_size recovery (tested (build b) ram) ≡ 5000
unfolding find_kernel_size read_number disk verify put_bytes
size_recovery b = refl

load_normal_addr : (b : ℕ) → find_kernel_load_addr normal (tested (build b) ram) ≡ 0x8010_0000
unfolding find_kernel_load_addr read_number disk verify put_bytes
load_normal_addr b = refl

load_recovery_addr : (b : ℕ) → find_kernel_load_addr recovery (tested (build b) ram) ≡ 0x8010_0000
unfolding find_kernel_load_addr read_number disk verify put_bytes
load_recovery_addr b = refl

normal-IsLoadable : IsLoadable normal (tested (build 0) ram)
unfolding disk
normal-IsLoadable = (
  rw (size_normal 0) (omega arith),
  rw (size_normal 0) (omega arith),
  rw (size_normal 0, load_normal_addr 0) (omega arith),
)

recovery-IsLoadable : IsLoadable recovery (tested (build 1) ram)
unfolding disk
recovery-IsLoadable = (
  rw (size_recovery 1) (omega arith),
  rw (size_recovery 1) (omega arith),
  rw (size_recovery 1, load_recovery_addr 1) (omega arith),
)

digest-IsTrusted : IsTrusted (build 0) ram
unfolding disk
digest-IsTrusted i b = ground arith

start_trusted_example :
    (booted : Hart) × (start (build 0) hart ≡ ret booted)
    × IsBooted normal
        (find_kernel_load_addr normal (tested (build 0) ram))
        (find_kernel_size normal (tested (build 0) ram) - 4096)
        ram
        booted
start_trusted_example = start_trusted (build 0) hart digest-IsTrusted normal-IsLoadable

digest_differs :
    (build 1).sha256 (λ j. ram (disk normal + j)) (find_kernel_size normal ram) 3
    ≢ (build 1).trusted_kernel_hash 3
unfolding disk
digest_differs = ground arith

start_tampered_example :
    (booted : Hart) × (start (build 1) hart ≡ ret booted)
    × IsBooted recovery
        (find_kernel_load_addr recovery (tested (build 1) ram))
        (find_kernel_size recovery (tested (build 1) ram)
          - 4096
          - find_kernel_size recovery (tested (build 1) ram) % bsize)
        ram
        booted
start_tampered_example =
    start_tampered (build 1) hart 3 (omega arith) digest_differs recovery-IsLoadable

-- kernel_copy() stops at a block behind the file system.
no_block : kernel_copy normal 2000 ram ≡ panic
unfolding kernel_copy
no_block = refl
