-- ===== src/Log/Transaction.antt =====
-- Project-2, kernel/log.c: begin_op(), log_write() and end_op().
pub mod Invariant
pub mod Room
pub mod Steps
use cse_536_advanced_operati.Base.{
  ℕ, zero, suc, ◌+◌, ◌-◌, ◌*◌, ◌/◌, ◌%◌, ◌^◌, ◌<◌, ◌≤◌, ◌≡◌, ◌≢◌, refl, sym, ap, ◌∙◌, subst, ◌⊎◌,
  inl, inr, Bool, true, false, not, ◌&&◌, ◌||◌, Option, none, some, ltb, leb, ◌==◌, if◌then◌else◌,
  Outcome, ret, panic, ◌>>=◌, >>=-eq-ret, ret_injective, arith, Bool-cases, ℕ_discrete, if_true,
  if_false,
}
use cse_536_advanced_operati.Log.State.{Block, Device, Log, put, in_log, log_size, max_op_blocks}
use cse_536_advanced_operati.Log.Commit.{commit}

-- `>` on the ints with these 32 bits, with LOGSIZE on the right.
abbrev pub above_log_size : ℕ → Bool
above_log_size x = ltb log_size x && ltb x (2 ^ 31)

-- A turn of the loop of begin_op(): `none` where the caller sleeps.
unfoldable pub begin_op : Log → Option Log
begin_op l =
    if l.committing
    then none
    else if above_log_size ((l.lh_n + (l.outstanding + 1) * max_op_blocks) % 2 ^ 32)
    then none
    else some (record l { outstanding = (l.outstanding + 1) % 2 ^ 32 })

-- end_op() with `left` calls still under way; the last one commits.
unfoldable pub leave : ℕ → Log → Log
leave zero l = record (commit (record l { outstanding = 0; committing = true })) {
  committing = false;
}
leave (suc left) l = record l { outstanding = suc left }

unfoldable pub end_op : Log → Outcome Log
end_op l = if l.committing then panic else ret (leave ((l.outstanding + (2 ^ 32 - 1)) % 2 ^ 32) l)

-- The loop of log_write(): the place of block `b`, or the one behind the last.
unfoldable pub find_logged : ℕ → ℕ → (ℕ → ℕ) → ℕ → ℕ
find_logged zero i block b = i
find_logged (suc rounds) i block b =
    let rest = find_logged rounds (i + 1) block b in if block i == b then i else rest

-- Block `b` at place `i` of the header; a place behind the last is a block more, with a pin.
unfoldable pub record_block : ℕ → ℕ → Log → Log
record_block i b l = record l {
  lh_block = put l.lh_block i b;
  lh_n = if i == l.lh_n then l.lh_n + 1 else l.lh_n;
  device = record l.device {
    pins =
        if i == l.lh_n then put l.device.pins b ((l.device.pins b + 1) % 2 ^ 32) else l.device.pins;
  };
}

-- `outstanding < 1` on ints.
unfoldable pub log_write : ℕ → Log → Outcome Log
log_write b l =
    if leb log_size l.lh_n || leb (l.size - 1) l.lh_n
    then panic
    else if l.outstanding == 0 || leb (2 ^ 31) l.outstanding
    then panic
    else ret (record_block (find_logged l.lh_n 0 l.lh_block b) b l)

-- The caller of log_write() changes the buffer of block `b` first.
abbrev pub modify : ℕ → Block → Log → Log
modify b contents l = record l {
  device = record l.device { cache = put l.device.cache b contents };
}
