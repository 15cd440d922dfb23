-- ===== src/Log/Transaction/Invariant.antt =====
-- Project-2, kernel/log.c: every operation of a transaction keeps the log ready for a commit.
use cse_536_advanced_operati.Base.{
  ℕ, zero, suc, ◌+◌, ◌-◌, ◌^◌, ◌<◌, ◌≤◌, ◌≡◌, ◌≢◌, sym, ap, ◌∙◌, subst, ◌⊎◌, inl, inr, false, ◌||◌,
  leb, ◌==◌, ret, panic, ret_injective, arith, Bool-cases, ℕ_discrete, if_true, if_false,
}
use cse_536_advanced_operati.Log.State.{Block, Log, in_log, log_size}
use cse_536_advanced_operati.Log.Commit.Survive.{IsReady}
use cse_536_advanced_operati.Log.Transaction.{find_logged, log_write, record_block, modify}

-- The search comes to a place of the block, or to the one behind the last.
find_logged_lem :
    (rounds i : ℕ) (block : ℕ → ℕ) (b : ℕ)
    → let k = find_logged rounds i block b in (k ≡ i + rounds) ⊎ ((k < i + rounds) × (block k ≡ b))
unfolding find_logged
find_logged_lem zero i block b = inl (omega arith)
find_logged_lem (suc rounds) i block b =
    let P : ℕ → Type 0 = λ k. (k ≡ i + suc rounds) ⊎ ((k < i + suc rounds) × (block k ≡ b)) in
    let rest = find_logged rounds (i + 1) block b in
    elim (ℕ_discrete (block i) b) [
      | yes e ↦ subst P (sym (if_true i rest (ground arith))) (inr (omega arith, e))
      | no d ↦
          subst P (sym (if_false i rest (ground arith)))
            (elim (find_logged_lem rounds (i + 1) block b) [
              | inl last ↦ inl (omega arith)
              | inr (low, e) ↦ inr (omega arith, e)
            ])
    ]

-- What log_write() has found true where it returned.
pub log_write_ret :
    (b : ℕ) (l r : Log)
    → log_write b l ≡ ret r
    → (l.lh_n < l.size - 1) × (record_block (find_logged l.lh_n 0 l.lh_block b) b l ≡ r)
unfolding log_write
log_write_ret b l r h = elim (Bool-cases (leb log_size l.lh_n || leb (l.size - 1) l.lh_n)) [
  | inl full ↦ absurd (let e = sym (if_true panic _ full) ∙ h in cc)
  | inr room ↦
      let h' = sym (if_false panic _ room) ∙ h in
      elim (Bool-cases (l.outstanding == 0 || leb (2 ^ 31) l.outstanding)) [
        | inl alone ↦ absurd (let e = sym (if_true panic _ alone) ∙ h' in cc)
        | inr inside ↦ (ground arith, ret_injective (sym (if_false panic _ inside) ∙ h'))
      ]
]

-- A block of a file that has changed in the cache is at a place of the header.
record_block-IsReady :
    (k b : ℕ) (contents : Block) (l : Log)
    → IsReady l
    → in_log l.start l.size b ≡ false
    → l.lh_n < l.size - 1
    → (k ≡ l.lh_n) ⊎ ((k < l.lh_n) × (l.lh_block k ≡ b))
    → IsReady (record_block k b (modify b contents l))
unfolding record_block
record_block-IsReady k b contents l ready o room place =
    let r = record_block k b (modify b contents l) in
    let below : k < r.lh_n = elim place [
      | inl e ↦ ground arith
      | inr q ↦ let w = q.0 in ground arith
    ] in
    let more : l.lh_n ≤ r.lh_n = ground arith in
    let inside : (i : ℕ) → i < r.lh_n → i ≢ k → i < l.lh_n =
      λ i h ne. elim place [ inl e ↦ ground arith | inr q ↦ let w = q.0 in ground arith ] in
    let here : r.lh_block k ≡ b = ground arith in
    let there : (i : ℕ) → i ≢ k → r.lh_block i ≡ l.lh_block i = λ i ne. ground arith in
    record {
      fits = ground arith;
      targets = λ i h. elim (ℕ_discrete i k) [
        | yes e ↦ ap (in_log l.start l.size) (ap r.lh_block e ∙ here) ∙ o
        | no ne ↦ ap (in_log l.start l.size) (there i ne) ∙ ready.targets i (inside i h ne)
      ];
      count = ready.count;
      homes = λ x ox. elim (ℕ_discrete x b) [
        | yes e ↦ inr (k, below, here ∙ sym e)
        | no nx ↦ elim (ready.homes x ox) [
          | inl p ↦ inl (ground arith)
          | inr (i, h, e) ↦ elim (ℕ_discrete i k) [
            | yes ei ↦ absurd (elim place [
              | inl ek ↦ omega arith
              | inr (w, eb) ↦ nx (sym e ∙ ap l.lh_block ei ∙ eb)
            ])
            | no ne ↦ inr (i, omega arith, there i ne ∙ e)
          ]
        ]
      ];
    }

-- A change to a block of a file and log_write() of the block leave a log that may be committed.
pub log_write-IsReady :
    (b : ℕ) (contents : Block) (l r : Log)
    → IsReady l
    → in_log l.start l.size b ≡ false
    → log_write b (modify b contents l) ≡ ret r
    → IsReady r
log_write-IsReady b contents l r ready o h =
    let (room, e) = log_write_ret b (modify b contents l) r h in
    subst IsReady e (
      record_block-IsReady (find_logged l.lh_n 0 l.lh_block b) b contents l ready o room
        (elim (find_logged_lem l.lh_n 0 l.lh_block b) [
          | inl last ↦ inl (omega arith)
          | inr (low, same) ↦ inr (omega arith, same)
        ]))
