-- ===== src/Trap/Frame/Laws.antt =====
-- Project-4, kernel/trap-and-emulate.c: where a value written by csrr_write_trapframe() is read
-- again by get_trapframe(), both numbering the registers as the instructions do.
use cse_536_advanced_operati.Base.{
  ℕ, ◌+◌, ◌-◌, ◌<◌, ◌≤◌, ◌≡◌, refl, sym, ap, ap₂, ◌∙◌, ℕ_discrete, if_true, Bool, true, false, not,
  ◌&&◌, Option, none, some, ltb, ◌==◌, if◌then◌else◌, find_row, holds_below, holds_below-at,
  int_of_u64, int_of_u64-int_of_u64, arith, eq-of-==,
}
use cse_536_advanced_operati.Trap.State.{
  Gpr, ra, sp, gp, tp, t0, t1, t2, s0, s1, a0, a1, a2, a3, a4, a5, a6, a7, s2, s3, s4, s5, s6, s7,
  s8, s9, s10, s11, t3, t4, t5, t6, offset, Trapframe, set_gpr,
}
use cse_536_advanced_operati.Trap.Frame.{read_rows, get_trapframe, write_rows, csrr_write_trapframe}

-- The number of the register that a write to number `rd` changes, or 32 for none: x0 to x9 are
-- not written, x10 to x17 are, and a number from x18 on stands for another register.
abbrev pub lands : ℕ → ℕ
lands rd =
    if ltb rd 10
    then 32
    else if ltb rd 18
    then rd
    else if ltb rd 21
    then rd - 13
    else if ltb rd 25
    then rd + 7
    else if ltb rd 27
    then rd - 17
    else rd - 9

same_bool : Bool → Bool → Bool
same_bool true b = b
same_bool false b = not b

-- The two tables name one register exactly where the number read is that of `lands`.
pair_agrees : Option Gpr → Option Gpr → ℕ → ℕ → Bool
pair_agrees none r rd n = lands rd == 32
pair_agrees (some w) none rd n = n == 0 && not (n == lands rd)
pair_agrees (some w) (some r) rd n =
    not (n == 0) && same_bool (n == lands rd) (offset r == offset w)

pairs_agree :
    holds_below
      (λ rd. holds_below (λ n. pair_agrees (find_row write_rows rd) (find_row read_rows n) rd n) 32)
      32
    ≡ true
unfolding holds_below pair_agrees same_bool find_row write_rows read_rows
pairs_agree = refl

pair_facts :
    (rd n : ℕ)
    → rd < 32
    → n < 32
    → pair_agrees (find_row write_rows rd) (find_row read_rows n) rd n ≡ true
pair_facts rd n h k = holds_below-at _ 32 n (holds_below-at _ 32 rd pairs_agree h) k

and_parts : (x y : Bool) → (not x && y) ≡ true → (x ≡ false) × (y ≡ true)
and_parts x y h = ground arith

write_none :
    (tf : Trapframe) (rd v : ℕ) → find_row write_rows rd ≡ none → csrr_write_trapframe rd v tf ≡ tf
unfolding csrr_write_trapframe
write_none tf rd v e = ground arith

write_some :
    (tf : Trapframe) (rd v : ℕ) (w : Gpr)
    → find_row write_rows rd ≡ some w
    → csrr_write_trapframe rd v tf ≡ set_gpr tf w (int_of_u64 v)
unfolding csrr_write_trapframe
write_some tf rd v w e = rw (e, csrr_write_trapframe)

read_none : (tf : Trapframe) (n : ℕ) → find_row read_rows n ≡ none → get_trapframe tf n ≡ 0
unfolding get_trapframe
read_none tf n e = ground arith

read_some :
    (tf : Trapframe) (n : ℕ) (r : Gpr)
    → find_row read_rows n ≡ some r
    → (n == 0) ≡ false
    → get_trapframe tf n ≡ int_of_u64 (tf.gpr r)
unfolding get_trapframe
read_some tf n r e z = ground arith

offsets : (b : Bool) (i j : ℕ) → same_bool b (i == j) ≡ true → (i == j) ≡ b
unfolding same_bool
offsets b i j h = ground arith

read_some_set :
    (tf : Trapframe) (w r : Gpr) (v : ℕ) (b : Bool)
    → (offset r == offset w) ≡ b
    → int_of_u64 ((set_gpr tf w (int_of_u64 v)).gpr r)
      ≡ (if b then int_of_u64 v else int_of_u64 (tf.gpr r))
read_some_set tf w r v true h = rw h (int_of_u64-int_of_u64 v)
read_some_set tf w r v false h = rw h

read_after_write :
    (tf : Trapframe) (o p : Option Gpr) (rd n v : ℕ)
    → find_row write_rows rd ≡ o
    → find_row read_rows n ≡ p
    → n < 32
    → pair_agrees o p rd n ≡ true
    → get_trapframe (csrr_write_trapframe rd v tf) n
      ≡ (if n == lands rd then int_of_u64 v else get_trapframe tf n)
unfolding pair_agrees
read_after_write tf none p rd n v e f k h =
    rw (write_none tf rd v e, eq-of-== (lands rd) 32 h) (ground arith)
read_after_write tf (some w) none rd n v e f k h =
    rw (read_none (csrr_write_trapframe rd v tf) n f, read_none tf n f) (ground arith)
read_after_write tf (some w) (some r) rd n v e f k h =
    let (z, a) = and_parts _ _ h in
    rw (write_some tf rd v w e, read_some _ n r f z, read_some tf n r f z)
      (read_some_set tf w r v (n == lands rd) (offsets (n == lands rd) _ _ a))

pub get_trapframe-csrr_write_trapframe :
    (tf : Trapframe) (rd n v : ℕ)
    → rd < 32
    → n < 32
    → get_trapframe (csrr_write_trapframe rd v tf) n
      ≡ (if n == lands rd then int_of_u64 v else get_trapframe tf n)
get_trapframe-csrr_write_trapframe tf rd n v h k =
    read_after_write tf (find_row write_rows rd) (find_row read_rows n) rd n v refl refl k
      (pair_facts rd n h k)

-- struct trapframe has the registers x1 to x31 in turn, from word 5 on, and get_trapframe() numbers
-- them so.
read_rows-offset : (g : Gpr) → find_row read_rows (offset g - 4) ≡ some g
unfolding find_row read_rows
read_rows-offset ra = refl
read_rows-offset sp = refl
read_rows-offset gp = refl
read_rows-offset tp = refl
read_rows-offset t0 = refl
read_rows-offset t1 = refl
read_rows-offset t2 = refl
read_rows-offset s0 = refl
read_rows-offset s1 = refl
read_rows-offset a0 = refl
read_rows-offset a1 = refl
read_rows-offset a2 = refl
read_rows-offset a3 = refl
read_rows-offset a4 = refl
read_rows-offset a5 = refl
read_rows-offset a6 = refl
read_rows-offset a7 = refl
read_rows-offset s2 = refl
read_rows-offset s3 = refl
read_rows-offset s4 = refl
read_rows-offset s5 = refl
read_rows-offset s6 = refl
read_rows-offset s7 = refl
read_rows-offset s8 = refl
read_rows-offset s9 = refl
read_rows-offset s10 = refl
read_rows-offset s11 = refl
read_rows-offset t3 = refl
read_rows-offset t4 = refl
read_rows-offset t5 = refl
read_rows-offset t6 = refl

pub get_trapframe-gpr :
    (tf : Trapframe) (g : Gpr) (n : ℕ)
    → offset g ≡ n + 4
    → get_trapframe tf n ≡ int_of_u64 (tf.gpr g)
unfolding find_row read_rows
get_trapframe-gpr tf g n e =
    let number : offset g - 4 ≡ n = omega arith in
    let row : find_row read_rows n ≡ some g =
      ap (find_row read_rows) (sym number) ∙ read_rows-offset g in
    elim (ℕ_discrete n 0) [
      | yes zero_n ↦ absurd (cc (ap (find_row read_rows) (sym zero_n) ∙ row))
      | no ne ↦ read_some tf n g row (ground arith)
    ]

-- For the numbers from 10 to 17 csrr_write_trapframe() does too.
has_offset : Option Gpr → ℕ → Bool
has_offset none n = false
has_offset (some w) n = offset w == n

write_rows_agree : holds_below (λ k. has_offset (find_row write_rows (k + 10)) (k + 14)) 8 ≡ true
unfolding holds_below has_offset find_row write_rows
write_rows_agree = refl

write_row :
    (o : Option Gpr) (tf : Trapframe) (d : Gpr) (rd v : ℕ)
    → find_row write_rows rd ≡ o
    → has_offset o (offset d) ≡ true
    → (csrr_write_trapframe rd v tf).gpr d ≡ int_of_u64 v
unfolding has_offset
write_row none tf d rd v e h = absurd (cc)
write_row (some w) tf d rd v e h =
    ap (λ (x : Trapframe). x.gpr d) (write_some tf rd v w e)
    ∙ if_true (int_of_u64 v) (tf.gpr d) (ground arith)

pub gpr-csrr_write_trapframe :
    (tf : Trapframe) (d : Gpr) (rd v : ℕ)
    → 10 ≤ rd
    → rd < 18
    → offset d ≡ rd + 4
    → (csrr_write_trapframe rd v tf).gpr d ≡ int_of_u64 v
gpr-csrr_write_trapframe tf d rd v low high e =
    let checked : has_offset (find_row write_rows (rd - 10 + 10)) (rd - 10 + 14) ≡ true =
      holds_below-at _ 8 (rd - 10) write_rows_agree (omega arith) in
    let number : rd - 10 + 10 ≡ rd = omega arith in
    let place : rd - 10 + 14 ≡ offset d = omega arith in
    write_row (find_row write_rows rd) tf d rd v refl
      (sym (ap₂ (λ a b. has_offset (find_row write_rows a) b) number place) ∙ checked)
