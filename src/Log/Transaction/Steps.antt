-- ===== src/Log/Transaction/Steps.antt =====
-- Project-2, kernel/log.c: system calls that write to the log, as sequences of steps.
use cse_536_advanced_operati.Base.{
  ℕ, suc, ◌+◌, ◌<◌, ◌≤◌, ◌≡◌, refl, sym, ◌∙◌, inl, false, some, List, [], ◌∷◌, ◌++◌, ret, arith,
}
use cse_536_advanced_operati.Log.State.{Device, Block, Log, in_log, max_op_blocks}
use cse_536_advanced_operati.Log.Commit.Stands.{IsHolding}
use cse_536_advanced_operati.Log.Commit.Recover.{initlog-IsHolding, initlog-cache}
use cse_536_advanced_operati.Log.Commit.{
  reboot, initlog, recover_from_log, read_head, clear_log, install_trans, write_head,
}
use cse_536_advanced_operati.Log.Transaction.{begin_op, end_op, log_write, modify}
use cse_536_advanced_operati.Log.Transaction.Room.{
  reserved, IsReserved, begin_op-IsReserved, end_op-IsReserved, log_write-IsReserved,
}

-- A step of one of the system calls that are under way, each with the number of its log_write()s.
-- A call makes at most MAXOPBLOCKS of them, to blocks behind the log; the commit of the last call
-- has power for its writes.
pub data Step : List ℕ → Log → List ℕ → Log → Type 0 where
  begins : (ops : List ℕ) (l r : Log) → begin_op l ≡ some r → Step ops l (0 ∷ ops) r
  writes :
      (before after : List ℕ) (k b : ℕ) (contents : Block) (l r : Log)
      → k < max_op_blocks
      → in_log l.start l.size b ≡ false
      → log_write b (modify b contents l) ≡ ret r
      → Step (before ++ (k ∷ after)) l (before ++ (suc k ∷ after)) r
  ends :
      (before after : List ℕ) (k : ℕ) (l r : Log)
      → l.lh_n + l.lh_n + 1 < l.device.power
      → end_op l ≡ ret r
      → Step (before ++ (k ∷ after)) l (before ++ after) r

pub data Reach : List ℕ → Log → List ℕ → Log → Type 0 where
  here : (ops : List ℕ) (l : Log) → Reach ops l ops l
  step :
      (ops mid end : List ℕ) (l m r : Log)
      → Reach ops l mid m
      → Step mid m end r
      → Reach ops l end r

Step-IsReserved :
    (ops ops' : List ℕ) (l r : Log) → IsReserved ops l → Step ops l ops' r → IsReserved ops' r
Step-IsReserved ops _ l r valid (begins _ _ _ h) = begin_op-IsReserved ops l r valid h
Step-IsReserved _ _ l r valid (writes before after k b contents _ _ more o h) =
    log_write-IsReserved before after k b contents l r valid more o h
Step-IsReserved _ _ l r valid (ends before after k _ _ power h) =
    end_op-IsReserved before after k l r valid power h

-- initlog() after a restart, with power for the whole log, on a disk whose log holds what its blocks
-- lack: a run of system calls may begin, the log on the disk is empty, and every block outside the
-- log has the contents that the disk stands for, on the disk and in the cache.
pub initlog-IsReserved :
    (c : ℕ → Block) (start size power b : ℕ) (v : Device)
    → IsHolding c start size v.disk
    → size ≤ power
    → in_log start size b ≡ false
    → let l = initlog start size (reboot power v) in
      IsReserved [] l
      × (l.device.disk start 0 ≡ 0)
      × (l.device.disk b ≡ c b)
      × (l.device.cache b ≡ c b)
unfolding reserved initlog recover_from_log read_head clear_log install_trans write_head
initlog-IsReserved c start size power b v (n, name, s) enough outside =
    let clean = (initlog-IsHolding c start size power v (n, name, s)).1 enough in
    (
      record {
        ready = record {
          fits = let f = s.fits in omega arith;
          targets = λ i h. absurd (omega arith);
          count = clean.count;
          homes = λ x o.
              inl (clean.homes x o ∙ sym (initlog-cache c start size power v x (n, name, s) o));
        };
        idle = refl;
        count = refl;
        few = omega arith;
        room = omega arith;
      },
      clean.count,
      clean.homes b outside,
      initlog-cache c start size power v b (n, name, s) outside,
    )

-- In every run of system calls that begins with an empty log and no call under way, by calls that
-- write MAXOPBLOCKS times at most and with power for each commit, the log is always ready for a
-- commit, and its blocks with those that the calls under way may still write are LOGSIZE at most.
pub Reach-IsReserved :
    (ops : List ℕ) (l r : Log) → IsReserved [] l → Reach [] l ops r → IsReserved ops r
Reach-IsReserved _ l _ valid (here _ _) = valid
Reach-IsReserved ops l r valid (step _ mid _ _ m _ before last) =
    Step-IsReserved mid ops m r (Reach-IsReserved mid l m valid before) last
