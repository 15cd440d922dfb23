-- ===== src/Trap/Frame.antt =====
-- Project-4, kernel/trap-and-emulate.c: the guest's general registers, read by get_trapframe() and
-- written by csrr_write_trapframe(). Each chain of tests is a table, searched from its first row.
pub mod Laws
use cse_536_advanced_operati.Base.{
  ℕ, none, some, List, [], ◌∷◌, ◌==◌, if◌then◌else◌, find_row, int_of_u64,
}
use cse_536_advanced_operati.Trap.State.{
  Gpr, ra, sp, gp, tp, t0, t1, t2, s0, s1, a0, a1, a2, a3, a4, a5, a6, a7, s2, s3, s4, s5, s6, s7,
  s8, s9, s10, s11, t3, t4, t5, t6, Trapframe, set_gpr,
}

unfoldable pub read_rows : List (ℕ × Gpr)
read_rows =
    (1, ra)
    ∷ (2, sp)
    ∷ (3, gp)
    ∷ (4, tp)
    ∷ (5, t0)
    ∷ (6, t1)
    ∷ (7, t2)
    ∷ (8, s0)
    ∷ (9, s1)
    ∷ (10, a0)
    ∷ (11, a1)
    ∷ (12, a2)
    ∷ (13, a3)
    ∷ (14, a4)
    ∷ (15, a5)
    ∷ (16, a6)
    ∷ (17, a7)
    ∷ (18, s2)
    ∷ (19, s3)
    ∷ (20, s4)
    ∷ (21, s5)
    ∷ (22, s6)
    ∷ (23, s7)
    ∷ (24, s8)
    ∷ (25, s9)
    ∷ (26, s10)
    ∷ (27, s11)
    ∷ (28, t3)
    ∷ (29, t4)
    ∷ (30, t5)
    ∷ (31, t6)
    ∷ []

-- The function returns an int: what its callers get is the low half with its sign extended.
unfoldable pub get_trapframe : Trapframe → ℕ → ℕ
get_trapframe tf rs1 =
    if rs1 == 0
    then 0
    else elim (find_row read_rows rs1) [ none ↦ 0 | some r ↦ int_of_u64 (tf.gpr r) ]

unfoldable pub write_rows : List (ℕ × Gpr)
write_rows =
    (0xa, a0)
    ∷ (0xb, a1)
    ∷ (0xc, a2)
    ∷ (0xd, a3)
    ∷ (0xe, a4)
    ∷ (0xf, a5)
    ∷ (0x10, a6)
    ∷ (0x11, a7)
    ∷ (0x12, t0)
    ∷ (0x13, t1)
    ∷ (0x14, t2)
    ∷ (0x15, t3)
    ∷ (0x16, t4)
    ∷ (0x17, t5)
    ∷ (0x18, t6)
    ∷ (0x19, s0)
    ∷ (0x1a, s1)
    ∷ (0x1b, s2)
    ∷ (0x1c, s3)
    ∷ (0x1d, s4)
    ∷ (0x1e, s5)
    ∷ (0x1f, s6)
    ∷ (0x20, s7)
    ∷ (0x21, s8)
    ∷ (0x22, s9)
    ∷ (0x23, s10)
    ∷ (0x24, s11)
    ∷ []

-- `value` is an int parameter: the caller's uint64 is truncated, and its sign extended when stored.
unfoldable pub csrr_write_trapframe : ℕ → ℕ → Trapframe → Trapframe
csrr_write_trapframe reg_val value tf = elim (find_row write_rows reg_val) [
  | none ↦ tf
  | some r ↦ set_gpr tf r (int_of_u64 value)
]
