-- ===== src/Cache/Bread.antt =====
-- Project-2, kernel/bio.c: bread() takes a buffer and shows the block as before.
use cse_536_advanced_operati.Base.{
  ℕ, ◌+◌, ◌^◌, ◌<◌, ◌≡◌, refl, sym, ap, ◌∙◌, subst, inl, inr, true, Option, none, some, List, ret,
  >>=-eq-ret, ret_injective, arith, Bool-cases, ℕ_discrete, if_true, if_false,
}
use cse_536_advanced_operati.Log.State.{Block}
use cse_536_advanced_operati.Cache.{
  Buf, Cache, find_buf, update, recycle, use_more, new_buf, bget_found, bget, read_disk, bread,
}
use cse_536_advanced_operati.Cache.View.{
  shown, view, IsGood, IsCoherent, KeepsBlock, map_buf, find_buf-update_self, find_buf-update_ne,
  update-IsCoherent,
}
use cse_536_advanced_operati.Cache.Recycle.{
  find_buf-IsGood, recycled_ret, recycle_found, recycle-IsCoherent, view-recycle,
}

module _ (d : ℕ) where
  -- A buffer of block `y` that is in use, in buffers that show what the others did.
  pub record IsHeld (disk : ℕ → Block) (y : ℕ) (bs cs : List Buf) : Type 0 where
    pub coherent : IsCoherent d disk cs
    pub views : (x : ℕ) → view d disk x cs ≡ view d disk x bs
    pub buf : Buf
    pub held : find_buf d y cs ≡ some buf
    pub users : 0 < buf.refcnt

  -- The count of a buffer that is taken does not come round to 0.
  abbrev pub HasRoom : ℕ → List Buf → Type 0
  HasRoom y bs = (b : Buf) → find_buf d y bs ≡ some b → b.refcnt + 1 < 2 ^ 32

  bget_found-IsHeld :
      (disk : ℕ → Block) (y : ℕ) (slot : Option Buf) (bs cs : List Buf)
      → IsCoherent d disk bs
      → HasRoom y bs
      → find_buf d y bs ≡ slot
      → bget_found slot d y bs ≡ ret cs
      → IsHeld disk y bs cs
  unfolding bget_found view shown
  bget_found-IsHeld disk y (some b) bs cs coherent room e h =
      let (good, dev, blockno) = find_buf-IsGood d disk y bs b coherent e in
      let more : b.refcnt + 1 < 2 ^ 32 = room b e in
      let held : find_buf d y (update use_more d y bs) ≡ some (use_more b) =
        find_buf-update_self d use_more y bs (λ b. (refl, refl)) ∙ ap (map_buf d use_more) e in
      subst (IsHeld disk y bs) (ret_injective h) (record {
        coherent =
            update-IsCoherent d disk use_more y bs (λ b. (refl, refl))
              (λ a ea.
                let same : b ≡ a = cc (sym e ∙ ea) in
                subst (λ a. IsGood d disk (use_more a)) same
                  (record { own = good.own; clean = λ v z. absurd (omega arith) }))
              coherent;
        views = λ x. elim (ℕ_discrete x y) [
          | yes same ↦
              subst (λ x. view d disk x (update use_more d y bs) ≡ view d disk x bs) (sym same)
                (ap (shown disk y) held ∙ ap (shown disk y) (sym e))
          | no ne ↦ ap (shown disk x) (find_buf-update_ne d use_more y x bs (λ b. (refl, refl)) ne)
        ];
        buf = use_more b;
        held = held;
        users = omega arith;
      })
  bget_found-IsHeld disk y none bs cs coherent room e h =
      let new = new_buf d y in
      let took : recycle new bs ≡ some cs = recycled_ret d (recycle new bs) cs h in
      let held = recycle_found d disk new refl bs cs took e in
      record {
        coherent =
            recycle-IsCoherent d disk new refl bs cs took e
              (record { own = λ v. refl; clean = λ v z. absurd (cc) }) coherent;
        views = λ x. elim (ℕ_discrete x y) [
          | yes same ↦
              subst (λ x. view d disk x cs ≡ view d disk x bs) (sym same)
                (ap (shown disk y) held ∙ ap (shown disk y) (sym e))
          | no ne ↦ view-recycle d disk new refl x bs cs took ne coherent
        ];
        buf = new;
        held = held;
        users = omega arith;
      }

  -- The buffers behind bread(): the block has a valid buffer in use, with what the cache showed of
  -- it, and every block is shown as before.
  pub record IsRead (y : ℕ) (c c' : Cache) : Type 0 where
    pub disk : c'.disk ≡ c.disk
    pub coherent : IsCoherent d c'.disk c'.bufs
    pub views : (x : ℕ) → view d c'.disk x c'.bufs ≡ view d c.disk x c.bufs
    pub buf : Buf
    pub held : find_buf d y c'.bufs ≡ some buf
    pub users : 0 < buf.refcnt
    pub valid : buf.valid ≡ true
    pub bytes : buf.bytes ≡ view d c.disk y c.bufs

  read_disk-block : (disk : ℕ → Block) → KeepsBlock d (read_disk disk)
  read_disk-block disk b = (ground arith, ground arith)

  -- What the buffer has behind the read from the disk.
  read_disk_lem :
      (disk : ℕ → Block) (y : ℕ) (b : Buf)
      → b.blockno ≡ y
      → ((read_disk disk b).valid ≡ true)
        × ((read_disk disk b).bytes ≡ shown disk y (some b))
        × ((read_disk disk b).refcnt ≡ b.refcnt)
        × (shown disk y (some (read_disk disk b)) ≡ shown disk y (some b))
  unfolding shown
  read_disk_lem disk y b e = elim (Bool-cases b.valid) [
    | inl valid ↦
        let same = if_true b (record b { valid = true; bytes = disk b.blockno }) valid in
        (
          ap (λ (x : Buf). x.valid) same ∙ valid,
          ap (λ (x : Buf). x.bytes) same ∙ sym (if_true b.bytes (disk y) valid),
          ap (λ (x : Buf). x.refcnt) same,
          ap (λ (x : Buf). shown disk y (some x)) same,
        )
    | inr not_valid ↦
        let new : Buf = record b { valid = true; bytes = disk b.blockno } in
        let same : read_disk disk b ≡ new = if_false b new not_valid in
        let bytes = ap disk e ∙ sym (if_false b.bytes (disk y) not_valid) in
        (
          ap (λ (x : Buf). x.valid) same,
          ap (λ (x : Buf). x.bytes) same ∙ bytes,
          ap (λ (x : Buf). x.refcnt) same,
          ap (λ (x : Buf). shown disk y (some x)) same ∙ bytes,
        )
  ]

  IsHeld-IsRead :
      (y : ℕ) (c : Cache) (bs : List Buf)
      → IsHeld c.disk y c.bufs bs
      → IsRead y c (record c { bufs = update (read_disk c.disk) d y bs })
  unfolding view
  IsHeld-IsRead y c bs h =
      let f = read_disk c.disk in
      let (good, dev, blockno) = find_buf-IsGood d c.disk y bs h.buf h.coherent h.held in
      let (valid, bytes, users, shows) = read_disk_lem c.disk y h.buf blockno in
      let held : find_buf d y (update f d y bs) ≡ some (f h.buf) =
        find_buf-update_self d f y bs (read_disk-block c.disk) ∙ ap (map_buf d f) h.held in
      record {
        disk = refl;
        coherent =
            update-IsCoherent d c.disk f y bs (read_disk-block c.disk)
              (λ a ea.
                let same : h.buf ≡ a = cc (sym h.held ∙ ea) in
                subst (λ a. IsGood d c.disk (f a)) same
                  (record {
                    own = λ v. (read_disk-block c.disk h.buf).0 ∙ dev;
                    clean = λ v z. absurd (let u = h.users in omega (arith, users, z, u));
                  }))
              h.coherent;
        views = λ x. elim (ℕ_discrete x y) [
          | yes same ↦
              subst (λ x. view d c.disk x (update f d y bs) ≡ view d c.disk x c.bufs) (sym same)
                (ap (shown c.disk y) held ∙ shows ∙ ap (shown c.disk y) (sym h.held) ∙ h.views y)
          | no ne ↦
              ap (shown c.disk x) (find_buf-update_ne d f y x bs (read_disk-block c.disk) ne)
              ∙ h.views x
        ];
        buf = f h.buf;
        held = held;
        users = let u = h.users in omega (arith, users, u);
        valid = valid;
        bytes = bytes ∙ ap (shown c.disk y) (sym h.held) ∙ h.views y;
      }

  -- bread() of a block of the device, where it does not panic for want of a buffer, gives a buffer
  -- with what the cache showed of the block, shows every block as before, and keeps the cache
  -- coherent.
  pub bread-IsRead :
      (y : ℕ) (c c' : Cache)
      → IsCoherent d c.disk c.bufs
      → HasRoom y c.bufs
      → bread d y c ≡ ret c'
      → IsRead y c c'
  unfolding bread bget
  bread-IsRead y c c' coherent room h =
      let (bs, one, two) =
        >>=-eq-ret (bget_found (find_buf d y c.bufs) d y c.bufs)
          (λ bs. ret (record c { bufs = update (read_disk c.disk) d y bs })) h in
      subst (IsRead y c) (ret_injective two) (
        IsHeld-IsRead y c bs
          (bget_found-IsHeld c.disk y (find_buf d y c.bufs) c.bufs bs coherent room refl one))
