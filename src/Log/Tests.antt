-- ===== src/Log/Tests.antt =====
-- Project-2, kernel/log.c: a small log, and the theorems at inputs where their hypotheses hold.
use cse_536_advanced_operati.Base.{
  if◌then◌else◌, ◌==◌, ℕ, ◌+◌, ◌≡◌, refl, sym, ◌⊎◌, inl, inr, false, some, [], ◌∷◌, ret, panic,
  arith, ℕ_discrete,
}
use cse_536_advanced_operati.Log.State.{Block, Device, Log, in_log, fill}
use cse_536_advanced_operati.Log.Commit.{
  copy_to_log, write_log, install_from, install_trans, header, write_head, clear_log, commit,
  reboot, initlog,
}
use cse_536_advanced_operati.Log.Commit.Stands.{IsClean, IsHolding}
use cse_536_advanced_operati.Log.Commit.Atomic.{stays, again, restarted, commit_atomic}
use cse_536_advanced_operati.Log.Commit.Survive.{IsReady}
use cse_536_advanced_operati.Log.Transaction.{
  begin_op, find_logged, log_write, record_block, modify,
}
use cse_536_advanced_operati.Log.Transaction.Steps.{
  begins, writes, Reach, here, step, Reach-IsReserved, initlog-IsReserved,
}
use cse_536_advanced_operati.Log.Transaction.Room.{IsReserved, reserved}

-- The log from block 2 on has 30 blocks, as mkfs makes it. Block 40 has changed in the cache.
abbrev sevens : Block
sevens = λ w. 7

abbrev empty_disk : ℕ → Block
empty_disk = λ b w. 0

abbrev with_power : ℕ → Device
with_power p = record { disk = empty_disk; cache = empty_disk; power = p; pins = λ b. 0 }

abbrev idle_log : ℕ → Log
idle_log p = record {
  start = 2;
  size = 30;
  outstanding = 0;
  committing = false;
  lh_n = 0;
  lh_block = λ i. 0;
  device = with_power p;
}

abbrev one_logged : ℕ → Log
one_logged p = record (modify 40 sevens (idle_log p)) { lh_n = 1; lh_block = λ i. 40 }

one_logged-IsReady : (p : ℕ) → IsReady (one_logged p)
unfolding in_log
one_logged-IsReady p = record {
  fits = omega arith;
  targets = λ i h. refl;
  count = refl;
  homes = λ b o. elim (ℕ_discrete b 40) [
    | yes e ↦ inr (0, omega arith, sym e)
    | no d ↦ inl (ground arith)
  ];
}

-- A commit of one block makes four writes; the header is the second.
commit_at_second_write : (commit (one_logged 2)).device.disk 2 1 ≡ 40
unfolding commit clear_log install_trans install_from write_head header fill write_log copy_to_log
commit_at_second_write = refl

commit_at_first_write : (commit (one_logged 1)).device.disk 2 1 ≡ 0
unfolding commit clear_log install_trans install_from write_head header fill write_log copy_to_log
commit_at_first_write = refl

commit_at_last_write : (commit (one_logged 4)).device.disk 40 5 ≡ 7
unfolding commit clear_log install_trans install_from write_head header fill write_log copy_to_log
commit_at_last_write = refl

-- The power fails behind the second write, and again in the first recovery.
abbrev half_way : Device
half_way = (initlog 2 30 (reboot 1 (commit (one_logged 2)).device)).device

commit_atomic_example :
    IsClean empty_disk 2 30 (restarted (one_logged 2) half_way 40)
    ⊎ IsClean
        (modify 40 sevens (idle_log 2)).device.cache
        2
        30
        (restarted (one_logged 2) half_way 40)
commit_atomic_example =
    commit_atomic (one_logged 2) half_way 40 (one_logged-IsReady 2)
      (again 1 (commit (one_logged 2)).device half_way (stays half_way)) (omega arith)

idle_log-IsReserved : IsReserved [] (idle_log 9)
unfolding reserved
idle_log-IsReserved = record {
  ready = record {
    fits = omega arith;
    targets = λ i h. absurd (omega arith);
    count = refl;
    homes = λ b o. inl refl;
  };
  idle = refl;
  count = refl;
  few = omega arith;
  room = omega arith;
}

abbrev in_call : Log
in_call = record (idle_log 9) { outstanding = 1 }

abbrev in_call_logged : Log
in_call_logged = record_block 0 40 (modify 40 sevens in_call)

begin_op_idle : begin_op (idle_log 9) ≡ some in_call
unfolding begin_op
begin_op_idle = refl

log_write-in_call : log_write 40 (modify 40 sevens in_call) ≡ ret in_call_logged
unfolding log_write find_logged
log_write-in_call = refl

block_40_outside : in_log 2 30 40 ≡ false
unfolding in_log
block_40_outside = refl

call_writes : Reach [] (idle_log 9) (1 ∷ []) in_call_logged
call_writes =
    step [] (0 ∷ []) (1 ∷ []) (idle_log 9) in_call in_call_logged
      (step [] [] (0 ∷ []) (idle_log 9) (idle_log 9) in_call (here [] (idle_log 9))
        (begins [] (idle_log 9) in_call begin_op_idle))
      (writes [] [] 0 40 sevens in_call in_call_logged (omega arith) block_40_outside
        log_write-in_call)

Reach-IsReserved_example : IsReserved (1 ∷ []) in_call_logged
Reach-IsReserved_example =
    Reach-IsReserved (1 ∷ []) (idle_log 9) in_call_logged idle_log-IsReserved call_writes

-- With 29 blocks in the log, three calls have one block left.
abbrev three_calls : Log
three_calls = record (idle_log 99) { outstanding = 3; lh_n = 29; lh_block = λ i. i + 40 }

log_write_thirtieth : log_write 69 three_calls ≡ panic
unfolding log_write
log_write_thirtieth = refl

-- A disk with a committed block in its log, and what it stands for.
abbrev zeros : Block
zeros = λ w. 0

abbrev block_40_header : Block
block_40_header = λ w. if w == 0 then 1 else if w == 1 then 40 else 0

abbrev committed : ℕ → Block
committed b = if b == 2 then block_40_header else if b == 3 then sevens else zeros

abbrev intended : ℕ → Block
intended b = if b == 40 then sevens else zeros

committed-IsHolding : IsHolding intended 2 30 committed
unfolding in_log
committed-IsHolding = (
  1,
  (λ i. 40),
  record {
    fits = omega arith;
    count = refl;
    names = λ i h. ground arith;
    targets = λ i h. refl;
    copies = λ i h. ground arith;
    homes = λ b o. elim (ℕ_discrete b 40) [
      | yes e ↦ inr (0, omega arith, sym e)
      | no d ↦ inl (ground arith)
    ];
  },
)

abbrev committed_device : Device
committed_device = record { disk = committed; cache = committed; power = 0; pins = λ b. 0 }

initlog-IsReserved_example :
    IsReserved [] (initlog 2 30 (reboot 40 committed_device))
    × ((initlog 2 30 (reboot 40 committed_device)).device.disk 2 0 ≡ 0)
    × ((initlog 2 30 (reboot 40 committed_device)).device.disk 40 ≡ sevens)
    × ((initlog 2 30 (reboot 40 committed_device)).device.cache 40 ≡ sevens)
initlog-IsReserved_example =
    initlog-IsReserved intended 2 30 40 40 committed_device committed-IsHolding (omega arith)
      block_40_outside
