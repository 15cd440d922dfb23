-- ===== src/Boot/Start/Boots.antt =====
-- Project-1, bootloader/start.c: which kernel start() enters, and what memory holds by then.
use cse_536_advanced_operati.Base.{
  ℕ, zero, suc, ◌+◌, ◌-◌, ◌*◌, ◌%◌, ◌<◌, ◌≤◌, ◌≡◌, ◌≢◌, inr, refl, ap, subst, subst⁻¹, ◌∙◌, ◌&&◌,
  leb, ltb, if◌then◌else◌, ret, ◌>>=◌, arith,
}
use cse_536_advanced_operati.Boot.Elf.{
  Kernel, normal, recovery, disk, read_number, find_kernel_size, find_kernel_entry_addr,
  find_kernel_load_addr,
}
use cse_536_advanced_operati.Boot.Load.{put_bytes, fssize, bsize}
use cse_536_advanced_operati.Boot.Load.Copied.{
  IsCopied, load_normal-IsCopied, load_recovery-IsCopied,
}
use cse_536_advanced_operati.Boot.Start.{
  Build, Hart, setup_recovery_kernel, is_secure_boot, set_privilege, configure_pmp, finish,
  boot_normal, start,
}
use cse_536_advanced_operati.Boot.Start.{all_memory, kernelpmp1, kernelpmp2, Isolation}
use cse_536_advanced_operati.Boot.Start.Secure.{
  IsTrusted, IsOutside, tested, tested_outside, is_secure_boot-trusted, is_secure_boot-tampered,
}

-- The kernel has at least one page and less than 2000 blocks, and goes to addresses below its disk.
abbrev pub IsLoadable : Kernel → (ℕ → ℕ) → Type 0
IsLoadable k byte =
    (4096 ≤ find_kernel_size k byte)
    × (find_kernel_size k byte < fssize * bsize)
    × (find_kernel_load_addr k byte + find_kernel_size k byte ≤ disk k)

-- The hart goes on at the entry of kernel `k`, and outside the system information table memory is
-- `old` with `n` bytes of the kernel copied to `load`.
abbrev pub IsBooted : Kernel → ℕ → ℕ → (ℕ → ℕ) → Hart → Type 0
IsBooted k load n old h =
    (h.mepc ≡ find_kernel_entry_addr k old)
    × ((a : ℕ)
        → IsOutside a
        → h.byte a
          ≡ (if leb load a && ltb a (load + n) then old (disk k + 4096 + (a - load)) else old a))

read_number-same :
    (n a : ℕ) (f g : ℕ → ℕ)
    → ((i : ℕ) → i < n → f (a + i) ≡ g (a + i))
    → read_number f a n ≡ read_number g a n
unfolding read_number
read_number-same zero a f g h = refl
read_number-same (suc n) a f g h =
    let here : f a ≡ g a = ap f (omega arith) ∙ h 0 (omega arith) ∙ ap g (omega arith) in
    let rest =
      read_number-same n (a + 1) f g
        (λ i b. ap f (omega arith) ∙ h (i + 1) (omega arith) ∙ ap g (omega arith)) in
    rw (here, rest) refl

disk-IsOutside : (k : Kernel) (i : ℕ) → IsOutside (disk k + i)
unfolding disk
disk-IsOutside normal i = inr (omega arith)
disk-IsOutside recovery i = inr (omega arith)

-- The table does not reach the entry in the headers.
entry-tested :
    (c : Build) (k : Kernel) (byte : ℕ → ℕ)
    → find_kernel_entry_addr k (tested c byte) ≡ find_kernel_entry_addr k byte
unfolding find_kernel_entry_addr
entry-tested c k byte = read_number-same 8 (disk k + 24) (tested c byte) byte (λ i b.
    tested_outside c byte (disk k + 24 + i)
      (subst IsOutside (omega arith) (disk-IsOutside k (24 + i))))

finish_outside : (c : Build) (h : Hart) (a : ℕ) → IsOutside a → (finish c h).byte a ≡ h.byte a
unfolding finish put_bytes
finish_outside c h a o = ground arith

finish-mepc : (c : Build) (h : Hart) → (finish c h).mepc ≡ h.mepc
unfolding finish
finish-mepc c h = refl

-- A kernel that was copied after the test, once start() is through.
finish-IsBooted :
    (c : Build) (k : Kernel) (load n : ℕ) (old new : ℕ → ℕ) (h : Hart)
    → h.byte ≡ new
    → h.mepc ≡ find_kernel_entry_addr k (tested c old)
    → IsCopied k load n (tested c old) new
    → IsBooted k load n old (finish c h)
finish-IsBooted c k load n old new h same entry copied = (
  finish-mepc c h ∙ entry ∙ entry-tested c k old,
  λ a o.
      let disk_byte =
        tested_outside c old (disk k + 4096 + (a - load))
          (subst IsOutside (omega arith) (disk-IsOutside k (4096 + (a - load)))) in
      let own = tested_outside c old a o in
      let at = copied a in finish_outside c h a o ∙ ap (λ f. f a) same ∙ at ∙ ground arith,
)

boot_trusted :
    (c : Build) (g : Hart)
    → IsTrusted c g.byte
    → IsLoadable normal (tested c g.byte)
    → (h : Hart) × ((is_secure_boot c g >>= λ (secure, checked).
          if secure then boot_normal c checked else ret (finish c checked))
        ≡ ret h)
      × IsBooted normal
          (find_kernel_load_addr normal (tested c g.byte))
          (find_kernel_size normal (tested c g.byte) - 4096)
          g.byte
          h
unfolding boot_normal
boot_trusted c g t (l, f, b) =
    let m = tested c g.byte in
    let (new, returns, copied) = load_normal-IsCopied m l f b in
    let loaded : Hart = record g {
      byte = new;
      mepc = find_kernel_entry_addr normal (tested c g.byte);
    } in
    (
      finish c loaded,
      rw (is_secure_boot-trusted c g t, returns) refl,
      finish-IsBooted c normal _ _ g.byte new loaded refl refl copied,
    )

boot_tampered :
    (c : Build) (g : Hart) (i : ℕ)
    → i < 32
    → c.sha256 (λ j. g.byte (disk normal + j)) (find_kernel_size normal g.byte) i
      ≢ c.trusted_kernel_hash i
    → IsLoadable recovery (tested c g.byte)
    → (h : Hart) × ((is_secure_boot c g >>= λ (secure, checked).
          if secure then boot_normal c checked else ret (finish c checked))
        ≡ ret h)
      × IsBooted recovery
          (find_kernel_load_addr recovery (tested c g.byte))
          (find_kernel_size recovery (tested c g.byte)
            - 4096
            - find_kernel_size recovery (tested c g.byte) % bsize)
          g.byte
          h
unfolding setup_recovery_kernel
boot_tampered c g i u n (l, f, b) =
    let m = tested c g.byte in
    let (new, returns, copied) = load_recovery-IsCopied m l (omega arith) b in
    let loaded : Hart = record g {
      byte = new;
      mepc = find_kernel_entry_addr recovery (tested c g.byte);
    } in
    (
      finish c loaded,
      rw (is_secure_boot-tampered c g i u n, returns) refl,
      finish-IsBooted c recovery _ _ g.byte new loaded refl refl copied,
    )

configure_byte : (iso : Isolation) (h : Hart) → h.byte ≡ (configure_pmp iso (set_privilege h)).byte
unfolding configure_pmp set_privilege
configure_byte all_memory h = refl
configure_byte kernelpmp1 h = refl
configure_byte kernelpmp2 h = refl

-- Where the digest of the normal kernel is the trusted one and the kernel can be loaded, start()
-- reaches the jump with the entry of the normal kernel, and with all of its bytes behind the first
-- page at its address, but for the system information table; the rest of memory outside the table
-- is as it was.
pub start_trusted :
    (c : Build) (h : Hart)
    → IsTrusted c h.byte
    → IsLoadable normal (tested c h.byte)
    → (booted : Hart) × (start c h ≡ ret booted)
      × IsBooted normal
          (find_kernel_load_addr normal (tested c h.byte))
          (find_kernel_size normal (tested c h.byte) - 4096)
          h.byte
          booted
unfolding start
start_trusted c h t l =
    let g = configure_pmp c.isolation (set_privilege h) in
    let same = configure_byte c.isolation h in
    subst⁻¹
      (λ b.
        IsTrusted c b
        → IsLoadable normal (tested c b)
        → (booted : Hart) × (start c h ≡ ret booted)
          × IsBooted normal (find_kernel_load_addr normal (tested c b))
              (find_kernel_size normal (tested c b) - 4096) b booted)
      same (boot_trusted c g) t l

-- Where some byte of the digest of the normal kernel is not the trusted one and the recovery kernel
-- can be loaded, start() reaches the jump with the entry of the recovery kernel, and with the whole
-- blocks of it, without those of the first page, at its address; the rest of memory, where the
-- bytes behind the last whole block belong, is as it was outside the system information table.
pub start_tampered :
    (c : Build) (h : Hart) (i : ℕ)
    → i < 32
    → c.sha256 (λ j. h.byte (disk normal + j)) (find_kernel_size normal h.byte) i
      ≢ c.trusted_kernel_hash i
    → IsLoadable recovery (tested c h.byte)
    → (booted : Hart) × (start c h ≡ ret booted)
      × IsBooted recovery
          (find_kernel_load_addr recovery (tested c h.byte))
          (find_kernel_size recovery (tested c h.byte)
            - 4096
            - find_kernel_size recovery (tested c h.byte) % bsize)
          h.byte
          booted
unfolding start
start_tampered c h i u n l =
    let g = configure_pmp c.isolation (set_privilege h) in
    let same = configure_byte c.isolation h in
    subst⁻¹
      (λ b.
        c.sha256 (λ j. b (disk normal + j)) (find_kernel_size normal b) i ≢ c.trusted_kernel_hash i
        → IsLoadable recovery (tested c b)
        → (booted : Hart) × (start c h ≡ ret booted)
          × IsBooted recovery (find_kernel_load_addr recovery (tested c b))
              (find_kernel_size recovery (tested c b)
                - 4096
                - find_kernel_size recovery (tested c b) % bsize)
              b booted)
      same (boot_tampered c g i u) n l
