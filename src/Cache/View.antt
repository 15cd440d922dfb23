-- ===== src/Cache/View.antt =====
-- Project-2, kernel/bio.c: what the cache shows of each block of its device, and what keeps it so.
use cse_536_advanced_operati.Base.{
  ℕ, ◌≡◌, ◌≢◌, refl, sym, ap, ◌∙◌, subst, inl, inr, true, false, Option, none, some, List, [], ◌∷◌,
  if◌then◌else◌, arith, Bool-cases, if_true, if_false,
}
use cse_536_advanced_operati.Log.State.{Block}
use cse_536_advanced_operati.Cache.{Buf, is_buf, find_buf, update}

unfoldable pub shown : (ℕ → Block) → ℕ → Option Buf → Block
shown disk x none = disk x
shown disk x (some b) = if b.valid then b.bytes else disk x

module _ (d : ℕ) where
  -- Block `x` as bread() would show it.
  unfoldable pub view : (ℕ → Block) → ℕ → List Buf → Block
  view disk x bs = shown disk x (find_buf d x bs)

  -- A valid buffer is of the device, and without users it has what the disk has.
  pub record IsGood (disk : ℕ → Block) (b : Buf) : Type 0 where
    pub own : b.valid ≡ true → b.dev ≡ d
    pub clean : b.valid ≡ true → b.refcnt ≡ 0 → b.bytes ≡ disk b.blockno

  -- The buffers are good, and no two of the device have the same block.
  abbrev pub IsCoherent : (ℕ → Block) → List Buf → Type 0
  IsCoherent disk [] = Unit {0}
  IsCoherent disk (b ∷ bs) =
      IsGood disk b × (b.dev ≡ d → find_buf d b.blockno bs ≡ none) × IsCoherent disk bs

  pub is_buf_key : (x : ℕ) (b : Buf) → is_buf d x b ≡ true → (b.dev ≡ d) × (b.blockno ≡ x)
  is_buf_key x b h = ground arith

  pub find_buf-cons_other :
      (x : ℕ) (b : Buf) (bs : List Buf)
      → is_buf d x b ≡ false
      → find_buf d x (b ∷ bs) ≡ find_buf d x bs
  unfolding find_buf
  find_buf-cons_other x b bs h = if_false (some b) (find_buf d x bs) h

  pub find_buf-cons_own :
      (x : ℕ) (b : Buf) (bs : List Buf) → is_buf d x b ≡ true → find_buf d x (b ∷ bs) ≡ some b
  unfolding find_buf
  find_buf-cons_own x b bs h = if_true (some b) (find_buf d x bs) h

  pub cons_same :
      (x : ℕ) (b : Buf) (bs cs : List Buf)
      → find_buf d x bs ≡ find_buf d x cs
      → find_buf d x (b ∷ bs) ≡ find_buf d x (b ∷ cs)
  cons_same x b bs cs h = elim (Bool-cases (is_buf d x b)) [
    | inl own ↦ find_buf-cons_own x b bs own ∙ sym (find_buf-cons_own x b cs own)
    | inr apart ↦ find_buf-cons_other x b bs apart ∙ h ∙ sym (find_buf-cons_other x b cs apart)
  ]

  -- A change that keeps the block of a buffer.
  abbrev pub KeepsBlock : (Buf → Buf) → Type 0
  KeepsBlock f = (b : Buf) → ((f b).dev ≡ b.dev) × ((f b).blockno ≡ b.blockno)

  is_buf-keeps : (f : Buf → Buf) (x : ℕ) (b : Buf) → KeepsBlock f → is_buf d x (f b) ≡ is_buf d x b
  is_buf-keeps f x b keeps = let (e, e') = keeps b in ground arith

  abbrev pub map_buf : (Buf → Buf) → Option Buf → Option Buf
  map_buf f none = none
  map_buf f (some b) = some (f b)

  update-cons_own :
      (f : Buf → Buf) (y : ℕ) (b : Buf) (bs : List Buf)
      → is_buf d y b ≡ true
      → update f d y (b ∷ bs) ≡ f b ∷ bs
  unfolding update
  update-cons_own f y b bs h = if_true (f b ∷ bs) (b ∷ update f d y bs) h

  update-cons_other :
      (f : Buf → Buf) (y : ℕ) (b : Buf) (bs : List Buf)
      → is_buf d y b ≡ false
      → update f d y (b ∷ bs) ≡ b ∷ update f d y bs
  unfolding update
  update-cons_other f y b bs h = if_false (f b ∷ bs) (b ∷ update f d y bs) h

  -- The buffer of a block behind a change, of the block itself and of another.
  pub find_buf-update_self :
      (f : Buf → Buf) (x : ℕ) (bs : List Buf)
      → KeepsBlock f
      → find_buf d x (update f d x bs) ≡ map_buf f (find_buf d x bs)
  unfolding update find_buf
  find_buf-update_self f x [] keeps = refl
  find_buf-update_self f x (b ∷ bs) keeps = elim (Bool-cases (is_buf d x b)) [
    | inl own ↦
        ap (find_buf d x) (update-cons_own f x b bs own)
        ∙ find_buf-cons_own x (f b) bs (is_buf-keeps f x b keeps ∙ own)
        ∙ ap (map_buf f) (sym (find_buf-cons_own x b bs own))
    | inr not_own ↦
        ap (find_buf d x) (update-cons_other f x b bs not_own)
        ∙ find_buf-cons_other x b (update f d x bs) not_own
        ∙ find_buf-update_self f x bs keeps
        ∙ ap (map_buf f) (sym (find_buf-cons_other x b bs not_own))
  ]

  pub find_buf-update_ne :
      (f : Buf → Buf) (y x : ℕ) (bs : List Buf)
      → KeepsBlock f
      → x ≢ y
      → find_buf d x (update f d y bs) ≡ find_buf d x bs
  unfolding update find_buf
  find_buf-update_ne f y x [] keeps ne = refl
  find_buf-update_ne f y x (b ∷ bs) keeps ne = elim (Bool-cases (is_buf d y b)) [
    | inl own ↦
        let apart : is_buf d x b ≡ false = ground arith in
        ap (find_buf d x) (update-cons_own f y b bs own)
        ∙ find_buf-cons_other x (f b) bs (is_buf-keeps f x b keeps ∙ apart)
        ∙ sym (find_buf-cons_other x b bs apart)
    | inr not_own ↦
        ap (find_buf d x) (update-cons_other f y b bs not_own)
        ∙ cons_same x b (update f d y bs) bs (find_buf-update_ne f y x bs keeps ne)
  ]

  -- A block that is in no buffer is in none of a part of the list.
  pub find_buf-cons_none :
      (x : ℕ) (b : Buf) (bs : List Buf)
      → find_buf d x (b ∷ bs) ≡ none
      → (is_buf d x b ≡ false) × (find_buf d x bs ≡ none)
  find_buf-cons_none x b bs h = elim (Bool-cases (is_buf d x b)) [
    | inl own ↦ absurd (let e = sym (find_buf-cons_own x b bs own) ∙ h in cc)
    | inr not_own ↦ (not_own, sym (find_buf-cons_other x b bs not_own) ∙ h)
  ]

  -- A change keeps the buffers coherent where the buffer that it leaves is good.
  pub update-IsCoherent :
      (disk : ℕ → Block) (f : Buf → Buf) (y : ℕ) (bs : List Buf)
      → KeepsBlock f
      → ((b : Buf) → find_buf d y bs ≡ some b → IsGood disk (f b))
      → IsCoherent disk bs
      → IsCoherent disk (update f d y bs)
  unfolding update
  update-IsCoherent disk f y [] keeps good coherent = coherent
  update-IsCoherent disk f y (b ∷ bs) keeps good coherent = elim (Bool-cases (is_buf d y b)) [
    | inl own ↦ subst (IsCoherent disk) (sym (update-cons_own f y b bs own)) (
      good b (find_buf-cons_own y b bs own),
      λ e. ap (λ x. find_buf d x bs) (keeps b).1 ∙ coherent.1 (sym (keeps b).0 ∙ e),
      coherent.2,
    )
    | inr not_own ↦ subst (IsCoherent disk) (sym (update-cons_other f y b bs not_own)) (
      coherent.0,
      λ e.
          let ne : b.blockno ≢ y = λ same. ground arith in
          find_buf-update_ne f y b.blockno bs keeps ne ∙ coherent.1 e,
      update-IsCoherent disk f y bs keeps (λ x h. good x (find_buf-cons_other y b bs not_own ∙ h))
          coherent.2,
    )
  ]
