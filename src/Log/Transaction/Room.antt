-- ===== src/Log/Transaction/Room.antt =====
-- Project-2, kernel/log.c: the blocks that begin_op() reserves for the calls under way.
use cse_536_advanced_operati.Base.{
  ℕ, zero, suc, ◌+◌, ◌-◌, ◌*◌, ◌%◌, ◌^◌, ◌<◌, ◌≤◌, ◌≡◌, refl, sym, ap, ◌∙◌, subst, inl, inr, true,
  false, none, some, List, [], ◌∷◌, ◌++◌, length, ltb, ret, panic, ret_injective, arith, Bool-cases,
  if_true, if_false,
}
use cse_536_advanced_operati.Log.State.{Block, Log, in_log, log_size, max_op_blocks}
use cse_536_advanced_operati.Log.Commit.{commit, clear_log, install_trans, write_head, write_log}
use cse_536_advanced_operati.Log.Commit.Survive.{IsReady, commit-IsReady}
use cse_536_advanced_operati.Log.Transaction.{
  above_log_size, begin_op, leave, end_op, log_write, record_block, modify,
}
use cse_536_advanced_operati.Log.Transaction.Invariant.{log_write-IsReady, log_write_ret}

-- The log_write()s that the calls under way may still make.
unfoldable pub reserved : List ℕ → ℕ
reserved [] = 0
reserved (k ∷ ks) = (max_op_blocks - k) + reserved ks

reserved_bound : (ops : List ℕ) → reserved ops ≤ length ops * max_op_blocks
unfolding reserved
reserved_bound [] = omega arith
reserved_bound (k ∷ ks) = let rest = reserved_bound ks in omega arith

pub reserved-++ :
    (before after : List ℕ) (k : ℕ)
    → reserved (before ++ (k ∷ after)) ≡ (max_op_blocks - k) + reserved (before ++ after)
unfolding reserved
reserved-++ [] after k = refl
reserved-++ (x ∷ before) after k = let rest = reserved-++ before after k in omega arith

pub length-++ :
    (before after : List ℕ) (k : ℕ)
    → length (before ++ (k ∷ after)) ≡ suc (length (before ++ after))
length-++ [] after k = refl
length-++ (x ∷ before) after k = ap suc (length-++ before after k)

-- The log is ready for a commit and counts the calls under way, and its blocks with those that the
-- calls may still write are LOGSIZE at most.
pub record IsReserved (ops : List ℕ) (l : Log) : Type 0 where
  pub ready : IsReady l
  pub idle : l.committing ≡ false
  pub count : l.outstanding ≡ length ops
  pub few : l.outstanding ≤ 3
  pub room : l.lh_n + reserved ops ≤ log_size

begin_op-some :
    (l r : Log)
    → l.outstanding ≤ 3
    → l.lh_n ≤ log_size
    → begin_op l ≡ some r
    → (l.lh_n + (l.outstanding + 1) * max_op_blocks ≤ log_size)
      × (record l { outstanding = l.outstanding + 1 } ≡ r)
unfolding begin_op
begin_op-some l r few small h = elim (Bool-cases l.committing) [
  | inl busy ↦ absurd (let e = sym (if_true none _ busy) ∙ h in cc)
  | inr idle ↦
      let h' = sym (if_false none _ idle) ∙ h in
      elim (Bool-cases (above_log_size ((l.lh_n + (l.outstanding + 1) * max_op_blocks) % 2 ^ 32))) [
        | inl full ↦ absurd (let e = sym (if_true none _ full) ∙ h' in cc)
        | inr room ↦
            let more : l.outstanding + 1 ≡ (l.outstanding + 1) % 2 ^ 32 = omega arith in
            let same = sym (if_false none _ room) ∙ h' in
            (ground arith, ap (λ x. record l { outstanding = x }) more ∙ (cc (same)))
      ]
]

pub begin_op-IsReserved :
    (ops : List ℕ) (l r : Log) → IsReserved ops l → begin_op l ≡ some r → IsReserved (0 ∷ ops) r
unfolding reserved
begin_op-IsReserved ops l r valid h =
    let (enough, e) = begin_op-some l r valid.few (let q = valid.room in omega arith) h in
    let ready = valid.ready in
    subst (IsReserved (0 ∷ ops)) e (record {
      ready = record {
        fits = ready.fits;
        targets = ready.targets;
        count = ready.count;
        homes = ready.homes;
      };
      idle = valid.idle;
      count = let q = valid.count in omega arith;
      few = omega arith;
      room = let q = reserved_bound ops in let c = valid.count in omega arith;
    })

log_write_frame :
    (b : ℕ) (l r : Log)
    → log_write b l ≡ ret r
    → (r.committing ≡ l.committing) × (r.outstanding ≡ l.outstanding) × (r.lh_n ≤ l.lh_n + 1)
unfolding record_block
log_write_frame b l r h =
    let (room, e) = log_write_ret b l r h in
    (
      ap (λ (x : Log). x.committing) (sym e),
      ap (λ (x : Log). x.outstanding) (sym e),
      subst (λ (x : Log). x.lh_n ≤ l.lh_n + 1) e (ground arith),
    )

commit_frame : (l : Log) → ((commit l).lh_n ≡ 0) × ((commit l).outstanding ≡ l.outstanding)
unfolding commit clear_log install_trans write_head write_log
commit_frame l =
    let P : Log → Type 0 = λ r. (r.lh_n ≡ 0) × (r.outstanding ≡ l.outstanding) in
    elim (Bool-cases (ltb 0 l.lh_n)) [
      | inl some_left ↦ subst P (sym (if_true _ l some_left)) (refl, refl)
      | inr none_left ↦ subst P (sym (if_false _ l none_left)) (ground arith, refl)
    ]

end_op_ret :
    (l : Log)
    → l.committing ≡ false
    → 0 < l.outstanding
    → l.outstanding ≤ 3
    → end_op l ≡ ret (leave (l.outstanding - 1) l)
unfolding end_op
end_op_ret l idle one few = if_false panic _ idle ∙ ap (λ x. ret (leave x l)) (omega arith)

-- The last call commits.
leave_last :
    (l : Log)
    → IsReady l
    → l.lh_n + l.lh_n + 1 < l.device.power
    → IsReady (leave 0 l) × ((leave 0 l).lh_n ≡ 0) × ((leave 0 l).outstanding ≡ 0)
unfolding leave
leave_last l ready power =
    let l' : Log = record l { outstanding = 0; committing = true } in
    let after =
      commit-IsReady l'
        (record {
          fits = ready.fits;
          targets = ready.targets;
          count = ready.count;
          homes = ready.homes;
        })
        power in
    let (none_left, calls) = commit_frame l' in
    (
      record {
        fits = after.fits;
        targets = after.targets;
        count = after.count;
        homes = after.homes;
      },
      none_left,
      calls,
    )

leave_idle : (left : ℕ) (l : Log) → l.committing ≡ false → (leave left l).committing ≡ false
unfolding leave
leave_idle zero l idle = refl
leave_idle (suc left) l idle = idle

leave-IsReserved :
    (before after : List ℕ) (k left : ℕ) (l : Log)
    → IsReserved (before ++ (k ∷ after)) l
    → l.lh_n + l.lh_n + 1 < l.device.power
    → suc left ≡ l.outstanding
    → IsReserved (before ++ after) (leave left l)
unfolding leave
leave-IsReserved before after k zero l valid power one =
    let (ready, none_left, calls) = leave_last l valid.ready power in
    let n = length-++ before after k in
    let q = reserved-++ before after k in
    record {
      ready = ready;
      idle = leave_idle 0 l valid.idle;
      count = let c = valid.count in omega arith;
      few = omega arith;
      room = let m = valid.room in omega arith;
    }
leave-IsReserved before after k (suc left) l valid power more =
    let ready = valid.ready in
    let n = length-++ before after k in
    let q = reserved-++ before after k in
    record {
      ready = record {
        fits = ready.fits;
        targets = ready.targets;
        count = ready.count;
        homes = ready.homes;
      };
      idle = leave_idle (suc left) l valid.idle;
      count = let c = valid.count in omega arith;
      few = let f = valid.few in omega arith;
      room = let m = valid.room in omega arith;
    }

pub end_op-IsReserved :
    (before after : List ℕ) (k : ℕ) (l r : Log)
    → IsReserved (before ++ (k ∷ after)) l
    → l.lh_n + l.lh_n + 1 < l.device.power
    → end_op l ≡ ret r
    → IsReserved (before ++ after) r
end_op-IsReserved before after k l r valid power h =
    let one : 0 < l.outstanding =
      let n = length-++ before after k in let c = valid.count in omega arith in
    subst (IsReserved (before ++ after))
      (ret_injective (sym (end_op_ret l valid.idle one valid.few) ∙ h))
      (leave-IsReserved before after k (l.outstanding - 1) l valid power (omega arith))

pub log_write-IsReserved :
    (before after : List ℕ) (k b : ℕ) (contents : Block) (l r : Log)
    → IsReserved (before ++ (k ∷ after)) l
    → k < max_op_blocks
    → in_log l.start l.size b ≡ false
    → log_write b (modify b contents l) ≡ ret r
    → IsReserved (before ++ (suc k ∷ after)) r
log_write-IsReserved before after k b contents l r valid more o h =
    let (idle, calls, blocks) = log_write_frame b (modify b contents l) r h in
    let n = length-++ before after k in
    let n' = length-++ before after (suc k) in
    let q = reserved-++ before after k in
    let q' = reserved-++ before after (suc k) in
    record {
      ready = log_write-IsReady b contents l r valid.ready o h;
      idle = idle ∙ valid.idle;
      count = let c = valid.count in omega arith;
      few = let f = valid.few in omega arith;
      room = let m = valid.room in omega arith;
    }
