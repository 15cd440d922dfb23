-- ===== src/Cache/Unlink.antt =====
-- Project-2, kernel/bio.c: a buffer that leaves its place in the list, and a write below the list.
use cse_536_advanced_operati.Base.{
  ℕ, ◌<◌, ◌≡◌, ◌≢◌, refl, sym, ap, ◌∙◌, subst, inl, inr, true, false, none, some, List, [], ◌∷◌,
  arith, Bool-cases, if_true, if_false,
}
use cse_536_advanced_operati.Log.State.{Block, put}
use cse_536_advanced_operati.Cache.{Buf, is_buf, find_buf, unlink}
use cse_536_advanced_operati.Cache.View.{
  IsCoherent, is_buf_key, find_buf-cons_own, find_buf-cons_other, find_buf-cons_none, cons_same,
}

module _ (d : ℕ) where
  -- A change of the disk at a block that no buffer has.
  pub put-IsCoherent :
      (disk : ℕ → Block) (y : ℕ) (contents : Block) (bs : List Buf)
      → find_buf d y bs ≡ none
      → IsCoherent d disk bs
      → IsCoherent d (put disk y contents) bs
  put-IsCoherent disk y contents [] h coherent = coherent
  put-IsCoherent disk y contents (b ∷ bs) h coherent =
      let (apart, rest) = find_buf-cons_none d y b bs h in
      let good = coherent.0 in
      (
        record {
          own = good.own;
          clean = λ v z.
              let own = good.own v in
              good.clean v z ∙ sym (if_false contents (disk b.blockno) (ground arith));
        },
        coherent.1,
        put-IsCoherent disk y contents bs rest coherent.2,
      )

  -- The same at the block of a buffer that is in use.
  pub put_used-IsCoherent :
      (disk : ℕ → Block) (y : ℕ) (contents : Block) (b : Buf) (bs : List Buf)
      → find_buf d y bs ≡ some b
      → 0 < b.refcnt
      → IsCoherent d disk bs
      → IsCoherent d (put disk y contents) bs
  put_used-IsCoherent disk y contents b [] h users coherent = coherent
  put_used-IsCoherent disk y contents b (a ∷ bs) h users coherent =
      elim (Bool-cases (is_buf d y a)) [
        | inl own ↦
            let same : a ≡ b = cc (sym (find_buf-cons_own d y a bs own) ∙ h) in
            let count = ap (λ (x : Buf). x.refcnt) same in
            let (dev, blockno) = is_buf_key d y a own in
            (
              record { own = coherent.0.own; clean = λ v z. absurd (omega arith) },
              coherent.1,
              put-IsCoherent disk y contents bs
                  (ap (λ x. find_buf d x bs) (sym blockno) ∙ coherent.1 dev) coherent.2,
            )
        | inr apart ↦
            let good = coherent.0 in
            (
              record {
                own = good.own;
                clean = λ v z.
                    let own = good.own v in
                    good.clean v z ∙ sym (if_false contents (disk a.blockno) (ground arith));
              },
              coherent.1,
              put_used-IsCoherent disk y contents b bs
                  (sym (find_buf-cons_other d y a bs apart) ∙ h) users coherent.2,
            )
      ]

  pub unlink-cons_own :
      (y : ℕ) (b : Buf) (bs : List Buf) → is_buf d y b ≡ true → unlink d y (b ∷ bs) ≡ bs
  unfolding unlink
  unlink-cons_own y b bs h = if_true bs (b ∷ unlink d y bs) h

  pub unlink-cons_other :
      (y : ℕ) (b : Buf) (bs : List Buf)
      → is_buf d y b ≡ false
      → unlink d y (b ∷ bs) ≡ b ∷ unlink d y bs
  unfolding unlink
  unlink-cons_other y b bs h = if_false bs (b ∷ unlink d y bs) h

  pub find_buf-unlink_ne :
      (y x : ℕ) (bs : List Buf) → x ≢ y → find_buf d x (unlink d y bs) ≡ find_buf d x bs
  unfolding unlink
  find_buf-unlink_ne y x [] ne = refl
  find_buf-unlink_ne y x (b ∷ bs) ne = elim (Bool-cases (is_buf d y b)) [
    | inl own ↦
        ap (find_buf d x) (unlink-cons_own y b bs own)
        ∙ sym (find_buf-cons_other d x b bs (ground arith))
    | inr apart ↦
        ap (find_buf d x) (unlink-cons_other y b bs apart)
        ∙ cons_same d x b (unlink d y bs) bs (find_buf-unlink_ne y x bs ne)
  ]

  -- Without its buffer, a block is in none.
  pub find_buf-unlink_self :
      (disk : ℕ → Block) (y : ℕ) (bs : List Buf)
      → IsCoherent d disk bs
      → find_buf d y (unlink d y bs) ≡ none
  unfolding unlink find_buf
  find_buf-unlink_self disk y [] coherent = refl
  find_buf-unlink_self disk y (b ∷ bs) coherent = elim (Bool-cases (is_buf d y b)) [
    | inl own ↦
        let (dev, blockno) = is_buf_key d y b own in
        ap (find_buf d y) (unlink-cons_own y b bs own)
        ∙ ap (λ x. find_buf d x bs) (sym blockno)
        ∙ coherent.1 dev
    | inr apart ↦
        ap (find_buf d y) (unlink-cons_other y b bs apart)
        ∙ find_buf-cons_other d y b (unlink d y bs) apart
        ∙ find_buf-unlink_self disk y bs coherent.2
  ]

  pub unlink-IsCoherent :
      (disk : ℕ → Block) (y : ℕ) (bs : List Buf)
      → IsCoherent d disk bs
      → IsCoherent d disk (unlink d y bs)
  unfolding unlink
  unlink-IsCoherent disk y [] coherent = coherent
  unlink-IsCoherent disk y (b ∷ bs) coherent = elim (Bool-cases (is_buf d y b)) [
    | inl own ↦ subst (IsCoherent d disk) (sym (unlink-cons_own y b bs own)) coherent.2
    | inr apart ↦ subst (IsCoherent d disk) (sym (unlink-cons_other y b bs apart)) (
      coherent.0,
      λ dev. find_buf-unlink_ne y b.blockno bs (λ e. ground arith) ∙ coherent.1 dev,
      unlink-IsCoherent disk y bs coherent.2,
    )
  ]
