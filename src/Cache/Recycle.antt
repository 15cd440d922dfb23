-- ===== src/Cache/Recycle.antt =====
-- Project-2, kernel/bio.c: the buffer that bget() takes when the block has none.
use cse_536_advanced_operati.Base.{
  ℕ, ◌≡◌, ◌≢◌, sym, ap, ◌∙◌, subst, ◌⊎◌, inl, inr, Option, none, some, List, [], ◌∷◌, ◌==◌, ret,
  ret_injective, arith, Bool-cases, Option-cases, if_true, if_false,
}
use cse_536_advanced_operati.Log.State.{Block}
use cse_536_advanced_operati.Cache.{Buf, is_buf, find_buf, recycle, or_here, recycled}
use cse_536_advanced_operati.Cache.View.{
  shown, view, IsGood, IsCoherent, is_buf_key, find_buf-cons_own, find_buf-cons_other,
  find_buf-cons_none,
}

module _ (d : ℕ) where
  -- The buffer that a search comes to is good, and of the block.
  pub find_buf-IsGood :
      (disk : ℕ → Block) (x : ℕ) (bs : List Buf) (b : Buf)
      → IsCoherent d disk bs
      → find_buf d x bs ≡ some b
      → IsGood d disk b × (b.dev ≡ d) × (b.blockno ≡ x)
  unfolding find_buf
  find_buf-IsGood disk x [] b coherent e = absurd (cc)
  find_buf-IsGood disk x (a ∷ bs) b coherent e = elim (Bool-cases (is_buf d x a)) [
    | inl own ↦
        let same : a ≡ b = cc (sym (find_buf-cons_own d x a bs own) ∙ e) in
        let (dev, blockno) = is_buf_key d x a own in
        subst (λ y. IsGood d disk y × (y.dev ≡ d) × (y.blockno ≡ x)) same (coherent.0, dev, blockno)
    | inr apart ↦
        find_buf-IsGood disk x bs b coherent.2 (sym (find_buf-cons_other d x a bs apart) ∙ e)
  ]

  recycle_cases :
      (new b : Buf) (bs cs : List Buf)
      → recycle new (b ∷ bs) ≡ some cs
      → ((cs' : List Buf) × (recycle new bs ≡ some cs') × (cs ≡ b ∷ cs'))
        ⊎ ((b.refcnt ≡ 0) × (cs ≡ new ∷ bs))
  unfolding recycle
  recycle_cases new b bs cs h = elim (Option-cases (recycle new bs)) [
    | inl e ↦
        let here : or_here new b bs none ≡ some cs = ap (or_here new b bs) (sym e) ∙ h in
        elim (Bool-cases (b.refcnt == 0)) [
          | inl free ↦ inr (ground arith, cc (sym (if_true (some (new ∷ bs)) none free) ∙ here))
          | inr busy ↦ absurd (cc (sym (if_false (some (new ∷ bs)) none busy) ∙ here))
        ]
    | inr (cs', e) ↦
        let later : some (b ∷ cs') ≡ some cs = ap (or_here new b bs) (sym e) ∙ h in
        inl (cs', e, cc (later))
  ]

  -- A buffer with no users shows what the disk has.
  pub shown_clean :
      (disk : ℕ → Block) (x : ℕ) (b : Buf)
      → IsGood d disk b
      → b.refcnt ≡ 0
      → b.blockno ≡ x
      → shown disk x (some b) ≡ disk x
  unfolding shown
  shown_clean disk x b good free blockno = elim (Bool-cases b.valid) [
    | inl valid ↦ if_true b.bytes (disk x) valid ∙ good.clean valid free ∙ ap disk blockno
    | inr not_valid ↦ if_false b.bytes (disk x) not_valid
  ]

  pub recycled_ret : (o : Option (List Buf)) (cs : List Buf) → recycled o ≡ ret cs → o ≡ some cs
  recycled_ret none cs h = absurd (cc)
  recycled_ret (some bs) cs h = ap some (ret_injective h)

  module _ (disk : ℕ → Block) (new : Buf) (own : new.dev ≡ d) where
    -- Another block that no buffer has is in none behind it.
    pub recycle-none :
        (x : ℕ) (bs cs : List Buf)
        → recycle new bs ≡ some cs
        → x ≢ new.blockno
        → find_buf d x bs ≡ none
        → find_buf d x cs ≡ none
    unfolding recycle
    recycle-none x [] cs e ne h = absurd (cc)
    recycle-none x (b ∷ bs) cs e ne h =
        let (apart, rest) = find_buf-cons_none d x b bs h in
        elim (recycle_cases new b bs cs e) [
          | inl (cs', e', same) ↦
              ap (find_buf d x) same
              ∙ find_buf-cons_other d x b cs' apart
              ∙ recycle-none x bs cs' e' ne rest
          | inr (free, same) ↦
              ap (find_buf d x) same ∙ find_buf-cons_other d x new bs (ground arith) ∙ rest
        ]

    -- The block of the new buffer.
    pub recycle_found :
        (bs cs : List Buf)
        → recycle new bs ≡ some cs
        → find_buf d new.blockno bs ≡ none
        → find_buf d new.blockno cs ≡ some new
    unfolding recycle
    recycle_found [] cs e h = absurd (cc)
    recycle_found (b ∷ bs) cs e h =
        let (apart, rest) = find_buf-cons_none d new.blockno b bs h in
        elim (recycle_cases new b bs cs e) [
          | inl (cs', e', same) ↦
              ap (find_buf d new.blockno) same
              ∙ find_buf-cons_other d new.blockno b cs' apart
              ∙ recycle_found bs cs' e' rest
          | inr (free, same) ↦
              ap (find_buf d new.blockno) same
              ∙ find_buf-cons_own d new.blockno new bs (ground arith)
        ]

    pub recycle-IsCoherent :
        (bs cs : List Buf)
        → recycle new bs ≡ some cs
        → find_buf d new.blockno bs ≡ none
        → IsGood d disk new
        → IsCoherent d disk bs
        → IsCoherent d disk cs
    unfolding recycle
    recycle-IsCoherent [] cs e h good coherent = absurd (cc)
    recycle-IsCoherent (b ∷ bs) cs e h good coherent =
        let (apart, rest) = find_buf-cons_none d new.blockno b bs h in
        elim (recycle_cases new b bs cs e) [
          | inl (cs', e', same) ↦ subst (IsCoherent d disk) (sym same) (
            coherent.0,
            λ dev. recycle-none b.blockno bs cs' e' (λ f. ground arith) (coherent.1 dev),
            recycle-IsCoherent bs cs' e' rest good coherent.2,
          )
          | inr (free, same) ↦ subst (IsCoherent d disk) (sym same) (good, λ dev. rest, coherent.2)
        ]

    -- The view of every other block is as before.
    pub view-recycle :
        (x : ℕ) (bs cs : List Buf)
        → recycle new bs ≡ some cs
        → x ≢ new.blockno
        → IsCoherent d disk bs
        → view d disk x cs ≡ view d disk x bs
    unfolding recycle view shown
    view-recycle x [] cs e ne coherent = absurd (cc)
    view-recycle x (b ∷ bs) cs e ne coherent = elim (recycle_cases new b bs cs e) [
      | inl (cs', e', same) ↦
          ap (λ l. shown disk x (find_buf d x l)) same ∙ elim (Bool-cases (is_buf d x b)) [
            | inl own_b ↦
                ap (shown disk x)
                  (find_buf-cons_own d x b cs' own_b ∙ sym (find_buf-cons_own d x b bs own_b))
            | inr apart ↦
                ap (shown disk x) (find_buf-cons_other d x b cs' apart)
                ∙ view-recycle x bs cs' e' ne coherent.2
                ∙ ap (shown disk x) (sym (find_buf-cons_other d x b bs apart))
          ]
      | inr (free, same) ↦
          ap (λ l. shown disk x (find_buf d x l)) same
          ∙ ap (shown disk x) (find_buf-cons_other d x new bs (ground arith))
          ∙ elim (Bool-cases (is_buf d x b)) [
            | inl own_b ↦
                let (dev, blockno) = is_buf_key d x b own_b in
                let lone : find_buf d x bs ≡ none =
                  ap (λ y. find_buf d y bs) (sym blockno) ∙ coherent.1 dev in
                ap (shown disk x) lone
                ∙ sym (shown_clean disk x b coherent.0 free blockno)
                ∙ ap (shown disk x) (sym (find_buf-cons_own d x b bs own_b))
            | inr apart ↦ ap (shown disk x) (sym (find_buf-cons_other d x b bs apart))
          ]
    ]
