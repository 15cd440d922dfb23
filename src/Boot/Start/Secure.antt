-- ===== src/Boot/Start/Secure.antt =====
-- Project-1, bootloader/start.c: what the secure boot test decides.
use cse_536_advanced_operati.Base.{
  ℕ, zero, suc, ◌+◌, ◌-◌, ◌<◌, ◌≤◌, ◌≡◌, ◌≢◌, ◌⊎◌, refl, sym, ap, subst, ◌∙◌, Bool, true, false,
  ◌==◌, if◌then◌else◌, ret, ◌>>=◌, arith, ℕ_discrete,
}
use cse_536_advanced_operati.Boot.Elf.{normal, disk, find_kernel_size}
use cse_536_advanced_operati.Boot.Load.{put_bytes}
use cse_536_advanced_operati.Boot.Start.{
  Build, Hart, sys_info, expected, observed, verify, measure, setup_recovery_kernel, is_secure_boot,
}

-- The digest of the normal kernel is the trusted one.
abbrev pub IsTrusted : Build → (ℕ → ℕ) → Type 0
IsTrusted c byte =
    (i : ℕ)
    → i < 32
    → c.sha256 (λ j. byte (disk normal + j)) (find_kernel_size normal byte) i
      ≡ c.trusted_kernel_hash i

-- The addresses outside the system information table.
abbrev pub IsOutside : ℕ → Type 0
IsOutside a = (a < sys_info) ⊎ (sys_info + 96 ≤ a)

verify-true :
    (t : ℕ → ℕ) (rounds i : ℕ) (byte : ℕ → ℕ) (ok : Bool)
    → ok ≡ true
    → i + rounds ≤ 32
    → ((j : ℕ) → i ≤ j → j < i + rounds → byte (observed + j) ≡ t j)
    → (verify t rounds i byte ok).0 ≡ true
unfolding verify put_bytes
verify-true t zero i byte ok e b h = e
verify-true t (suc rounds) i byte ok e b h =
    let here = h i (omega arith) (omega arith) in
    let still : (if byte (observed + i) == t i then ok else false) ≡ true = ground arith in
    let stored : ℕ → ℕ = put_bytes byte (expected + i) 1 (λ _. t i) in
    let above : (j : ℕ) → i + 1 ≤ j → j < (i + 1) + rounds → stored (observed + j) ≡ t j =
      λ j l u. let at = h j (omega arith) (omega arith) in ground arith in
    verify-true t rounds (i + 1) stored _ still (omega arith) above

verify-lost :
    (t : ℕ → ℕ) (rounds i : ℕ) (byte : ℕ → ℕ) (ok : Bool)
    → ok ≡ false
    → (verify t rounds i byte ok).0 ≡ false
unfolding verify
verify-lost t zero i byte ok e = e
verify-lost t (suc rounds) i byte ok e = verify-lost t rounds (i + 1) _ _ (ground arith)

verify-differs :
    (t : ℕ → ℕ) (rounds i j : ℕ) (byte : ℕ → ℕ) (ok : Bool)
    → i + rounds ≤ 32
    → i ≤ j
    → j < i + rounds
    → byte (observed + j) ≢ t j
    → (verify t rounds i byte ok).0 ≡ false
unfolding verify put_bytes
verify-differs t zero i j byte ok b l u n = absurd (omega arith)
verify-differs t (suc rounds) i j byte ok b l u n =
    let stored : ℕ → ℕ = put_bytes byte (expected + i) 1 (λ _. t i) in
    elim (ℕ_discrete i j) [
      | yes e ↦
          let here : byte (observed + i) ≢ t i = subst (λ m. byte (observed + m) ≢ t m) (sym e) n in
          verify-lost t rounds (i + 1) stored _ (ground arith)
      | no m ↦
          let above : stored (observed + j) ≢ t j = ground arith in
          verify-differs t rounds (i + 1) j stored _ (omega arith) (omega arith) (omega arith) above
    ]

verify-outside :
    (t : ℕ → ℕ) (rounds i : ℕ) (byte : ℕ → ℕ) (ok : Bool) (a : ℕ)
    → i + rounds ≤ 32
    → IsOutside a
    → (verify t rounds i byte ok).1 a ≡ byte a
unfolding verify put_bytes
verify-outside t zero i byte ok a b o = refl
verify-outside t (suc rounds) i byte ok a b o =
    verify-outside t rounds (i + 1) (put_bytes byte (expected + i) 1 (λ _. t i)) _ a (omega arith) o
    ∙ ground arith

-- The memory after the test.
abbrev pub tested : Build → (ℕ → ℕ) → ℕ → ℕ
tested c byte = (verify c.trusted_kernel_hash 32 0 (measure c byte) true).1

pub tested_outside : (c : Build) (byte : ℕ → ℕ) (a : ℕ) → IsOutside a → tested c byte a ≡ byte a
unfolding put_bytes
tested_outside c byte a o =
    verify-outside c.trusted_kernel_hash 32 0 (measure c byte) true a (omega arith) o ∙ ground arith

put_bytes_at :
    (byte content : ℕ → ℕ) (dst n i : ℕ)
    → i < n
    → put_bytes byte dst n content (dst + i) ≡ content i
unfolding put_bytes
put_bytes_at byte content dst n i b =
    let same : content ((dst + i) - dst) ≡ content i = ap content (omega arith) in ground arith

measure-observed :
    (c : Build) (byte : ℕ → ℕ) (i : ℕ)
    → i < 32
    → measure c byte (observed + i)
      ≡ c.sha256 (λ j. byte (disk normal + j)) (find_kernel_size normal byte) i
measure-observed c byte i b =
    put_bytes_at byte (c.sha256 (λ j. byte (disk normal + j)) (find_kernel_size normal byte))
      observed 32 i b

pub is_secure_boot-trusted :
    (c : Build) (h : Hart)
    → IsTrusted c h.byte
    → is_secure_boot c h ≡ ret (true, record h { byte = tested c h.byte })
unfolding is_secure_boot
is_secure_boot-trusted c h t =
    let ok =
      verify-true c.trusted_kernel_hash 32 0 (measure c h.byte) true refl (omega arith)
        (λ j l u. measure-observed c h.byte j u ∙ t j u) in
    rw ok refl

pub is_secure_boot-tampered :
    (c : Build) (h : Hart) (i : ℕ)
    → i < 32
    → c.sha256 (λ j. h.byte (disk normal + j)) (find_kernel_size normal h.byte) i
      ≢ c.trusted_kernel_hash i
    → is_secure_boot c h ≡ (
        setup_recovery_kernel (record h { byte = tested c h.byte }) >>= λ recovered.
        ret (false, recovered))
unfolding is_secure_boot
is_secure_boot-tampered c h i u n =
    let ok =
      verify-differs c.trusted_kernel_hash 32 0 i (measure c h.byte) true (omega arith)
        (omega arith) u (λ e. n (sym (measure-observed c h.byte i u) ∙ e)) in
    rw ok refl
