-- ===== src/Cache/Write.antt =====
-- Project-2, kernel/bio.c: a block that is read, changed, written and released.
use cse_536_advanced_operati.Base.{
  ℕ, ◌<◌, ◌≡◌, refl, sym, ap, ◌∙◌, subst, inl, inr, true, Option, none, some, List, ◌∷◌, ◌==◌,
  if◌then◌else◌, ret, arith, Bool-cases, ℕ_discrete, if_true, if_false,
}
use cse_536_advanced_operati.Log.State.{Block, put}
use cse_536_advanced_operati.Cache.{
  Buf, Cache, find_buf, update, set_bytes, modify, write_found, bwrite, use_less, unlink,
  release_found, brelse, bread,
}
use cse_536_advanced_operati.Cache.View.{
  shown, view, IsGood, IsCoherent, find_buf-cons_own, find_buf-cons_other, map_buf,
  find_buf-update_self, find_buf-update_ne, update-IsCoherent,
}
use cse_536_advanced_operati.Cache.Recycle.{find_buf-IsGood}
use cse_536_advanced_operati.Cache.Bread.{HasRoom, bread-IsRead}
use cse_536_advanced_operati.Cache.Unlink.{
  put_used-IsCoherent, find_buf-unlink_ne, find_buf-unlink_self, unlink-IsCoherent,
}

module _ (d : ℕ) where
  -- The cache behind a write of block `y`: the disk and the view have the contents, and the buffer is
  -- still in use.
  pub record IsWritten (y : ℕ) (contents : Block) (c c' : Cache) : Type 0 where
    pub coherent : IsCoherent d c'.disk c'.bufs
    pub disk : c'.disk ≡ put c.disk y contents
    pub views : (x : ℕ) → view d c'.disk x c'.bufs ≡ put (λ k. view d c.disk k c.bufs) y contents x
    pub buf : Buf
    pub held : find_buf d y c'.bufs ≡ some buf
    pub users : 0 < buf.refcnt
    pub bytes : buf.bytes ≡ contents

  shown_disk :
      (disk disk' : ℕ → Block) (x : ℕ) (o : Option Buf)
      → disk x ≡ disk' x
      → shown disk x o ≡ shown disk' x o
  unfolding shown
  shown_disk disk disk' x none e = e
  shown_disk disk disk' x (some b) e = ap (λ y. if b.valid then b.bytes else y) e

  bwrite-IsWritten :
      (y : ℕ) (contents : Block) (c : Cache) (b : Buf)
      → IsCoherent d c.disk c.bufs
      → find_buf d y c.bufs ≡ some b
      → b.valid ≡ true
      → 0 < b.refcnt
      → IsWritten y contents c (bwrite d y (modify contents d y c))
  unfolding bwrite write_found modify view shown
  bwrite-IsWritten y contents c b coherent h valid users =
      let f = set_bytes contents in
      let bs = update f d y c.bufs in
      let (good, dev, blockno) = find_buf-IsGood d c.disk y c.bufs b coherent h in
      let held : find_buf d y bs ≡ some (f b) =
        find_buf-update_self d f y c.bufs (λ b. (refl, refl)) ∙ ap (map_buf d f) h in
      let c' : Cache = record { bufs = bs; disk = put c.disk y contents } in
      let same : c' ≡ bwrite d y (modify contents d y c) =
        ap (λ n. record { bufs = bs; disk = put c.disk n contents }) (sym blockno)
        ∙ ap (λ o. write_found o (record c { bufs = bs })) (sym held) in
      subst (IsWritten y contents c) same (record {
        coherent = put_used-IsCoherent d c.disk y contents (f b) bs held users (
            update-IsCoherent d c.disk f y c.bufs (λ b. (refl, refl))
              (λ a ea.
                let e : b ≡ a = cc (sym h ∙ ea) in
                subst (λ a. IsGood d c.disk (f a)) e
                  (record { own = good.own; clean = λ v z. absurd (omega arith) }))
              coherent);
        disk = refl;
        views = λ x. elim (ℕ_discrete x y) [
          | yes e ↦
              subst
                (λ x.
                  view d (put c.disk y contents) x bs
                  ≡ put (λ k. view d c.disk k c.bufs) y contents x)
                (sym e)
                (ap (shown (put c.disk y contents) y) held
                  ∙ if_true contents (put c.disk y contents y) valid
                  ∙ sym (if_true contents (view d c.disk y c.bufs) (ground arith)))
          | no ne ↦
              ap (shown (put c.disk y contents) x)
                (find_buf-update_ne d f y x c.bufs (λ b. (refl, refl)) ne)
              ∙ shown_disk (put c.disk y contents) c.disk x (find_buf d x c.bufs)
                  (if_false contents (c.disk x) (ground arith))
              ∙ sym (if_false contents (view d c.disk x c.bufs) (ground arith))
        ];
        buf = f b;
        held = held;
        users = users;
        bytes = refl;
      })

  -- brelse() of a buffer that is clean or has other users.
  brelse-IsCoherent :
      (y : ℕ) (c : Cache) (b : Buf)
      → IsCoherent d c.disk c.bufs
      → find_buf d y c.bufs ≡ some b
      → ((use_less b).refcnt ≡ 0 → b.bytes ≡ c.disk y)
      → IsCoherent d c.disk (brelse d y c).bufs
        × ((x : ℕ) → view d c.disk x (brelse d y c).bufs ≡ view d c.disk x c.bufs)
  unfolding brelse release_found view shown
  brelse-IsCoherent y c b coherent h clean =
      let (good, dev, blockno) = find_buf-IsGood d c.disk y c.bufs b coherent h in
      let Keeps : List Buf → Type 0 =
        λ bs. IsCoherent d c.disk bs × ((x : ℕ) → view d c.disk x bs ≡ view d c.disk x c.bufs) in
      let less : IsGood d c.disk (use_less b) = record {
        own = good.own;
        clean = λ v z. clean z ∙ ap c.disk (sym blockno);
      } in
      let open_list = ap (λ o. release_found o d y c.bufs) h in
      subst Keeps (sym open_list) (elim (Bool-cases ((use_less b).refcnt == 0)) [
        | inl last ↦
            let bs = use_less b ∷ unlink d y c.bufs in
            subst Keeps (sym (if_true bs (update use_less d y c.bufs) last)) (
              (
                less,
                λ e.
                    ap (λ x. find_buf d x (unlink d y c.bufs)) blockno
                    ∙ find_buf-unlink_self d c.disk y c.bufs coherent,
                unlink-IsCoherent d c.disk y c.bufs coherent,
              ),
              λ x. elim (ℕ_discrete x y) [
                | yes e ↦
                    ap (shown c.disk x)
                      (find_buf-cons_own d x (use_less b) (unlink d y c.bufs) (ground arith))
                    ∙ ap (shown c.disk x) (sym h ∙ ap (λ z. find_buf d z c.bufs) (sym e))
                | no ne ↦ ap (shown c.disk x) (
                    find_buf-cons_other d x (use_less b) (unlink d y c.bufs) (ground arith)
                    ∙ find_buf-unlink_ne d y x c.bufs ne)
              ],
            )
        | inr more ↦
            let bs = update use_less d y c.bufs in
            subst Keeps (sym (if_false (use_less b ∷ unlink d y c.bufs) bs more)) (
              update-IsCoherent d c.disk use_less y c.bufs (λ b. (refl, refl))
                  (λ a ea.
                    let e : b ≡ a = cc (sym h ∙ ea) in
                    subst (λ a. IsGood d c.disk (use_less a)) e less)
                  coherent,
              λ x. elim (ℕ_discrete x y) [
                | yes e ↦
                    subst (λ x. view d c.disk x bs ≡ view d c.disk x c.bufs) (sym e)
                      (ap (shown c.disk y) (
                          find_buf-update_self d use_less y c.bufs (λ b. (refl, refl))
                          ∙ ap (map_buf d use_less) h)
                        ∙ ap (shown c.disk y) (sym h))
                | no ne ↦
                    ap (shown c.disk x)
                      (find_buf-update_ne d use_less y x c.bufs (λ b. (refl, refl)) ne)
              ],
            )
      ])

  -- A block of the device that is read, changed, written and released: the disk and the view of the
  -- cache both have the new contents of that block, and show every other block as before.
  pub brelse-bwrite :
      (y : ℕ) (contents : Block) (c c' : Cache)
      → IsCoherent d c.disk c.bufs
      → HasRoom d y c.bufs
      → bread d y c ≡ ret c'
      → let w = brelse d y (bwrite d y (modify contents d y c')) in
        IsCoherent d w.disk w.bufs
        × (w.disk ≡ put c.disk y contents)
        × ((x : ℕ) → view d w.disk x w.bufs ≡ put (λ k. view d c.disk k c.bufs) y contents x)
  unfolding brelse
  brelse-bwrite y contents c c' coherent room h =
      let r = bread-IsRead d y c c' coherent room h in
      let w = bwrite-IsWritten y contents c' r.buf r.coherent r.held r.valid r.users in
      let (kept, views) =
        brelse-IsCoherent y (bwrite d y (modify contents d y c')) w.buf w.coherent w.held (λ z.
          w.bytes
          ∙ sym (if_true contents (c'.disk y) (ground arith))
          ∙ ap (λ (disk : ℕ → Block). disk y) (sym w.disk)) in
      (
        kept,
        w.disk ∙ ap (λ disk. put disk y contents) r.disk,
        λ x. views x ∙ w.views x ∙ ap (λ v. if x == y then contents else v) (r.views x),
      )
