-- ===== src/Log/Commit/Atomic.antt =====
-- Project-2, kernel/log.c: a commit that the power does not survive, and the recovery behind it.
use cse_536_advanced_operati.Base.{ℕ, ◌≤◌, ◌⊎◌, inl, inr}
use cse_536_advanced_operati.Log.State.{Block, Device, Log}
use cse_536_advanced_operati.Log.Commit.{commit, reboot, initlog}
use cse_536_advanced_operati.Log.Commit.Stands.{IsHolding, IsClean}
use cse_536_advanced_operati.Log.Commit.Recover.{initlog-IsHolding}
use cse_536_advanced_operati.Log.Commit.Survive.{IsReady, commit-Survives}

-- The machine starts again any number of times, and the power fails before the recovery is done.
pub data Restarts (start size : ℕ) : Device → Device → Type 0 where
  stays : (v : Device) → Restarts start size v v
  again :
      (power : ℕ) (v w : Device)
      → Restarts start size (initlog start size (reboot power v)).device w
      → Restarts start size v w

Restarts-IsHolding :
    (c : ℕ → Block) (start size : ℕ) (v w : Device)
    → Restarts start size v w
    → IsHolding c start size v.disk
    → IsHolding c start size w.disk
Restarts-IsHolding c start size v _ (stays _) holds = holds
Restarts-IsHolding c start size v w (again power _ _ rest) holds =
    Restarts-IsHolding c start size (initlog start size (reboot power v)).device w rest
      (initlog-IsHolding c start size power v holds).0

-- What a machine finds behind a commit and any number of restarts, when it has power for a recovery.
abbrev pub restarted : Log → Device → ℕ → ℕ → Block
restarted l v power = (initlog l.start l.size (reboot power v)).device.disk

-- If the power fails anywhere in a commit, and again in any number of recoveries, then the next
-- recovery with enough power leaves every block of a file as it was before the commit, or leaves
-- every such block as the cache had it.
pub commit_atomic :
    (l : Log) (v : Device) (power : ℕ)
    → IsReady l
    → Restarts l.start l.size (commit l).device v
    → l.size ≤ power
    → IsClean l.device.disk l.start l.size (restarted l v power)
      ⊎ IsClean l.device.cache l.start l.size (restarted l v power)
commit_atomic l v power ready restarts enough =
    let final : (c : ℕ → Block)
        → IsHolding c l.start l.size (commit l).device.disk
        → IsClean c l.start l.size (restarted l v power) =
      λ c holds.
        (initlog-IsHolding c l.start l.size power v
            (Restarts-IsHolding c l.start l.size (commit l).device v restarts holds)).1
          enough in
    elim (commit-Survives l ready).either [
      | inl old ↦ inl (final l.device.disk old)
      | inr new ↦ inr (final l.device.cache new)
    ]
