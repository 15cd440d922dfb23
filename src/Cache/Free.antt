-- ===== src/Cache/Free.antt =====
-- Project-2, kernel/bio.c: bread() does not panic as long as some buffer has no user.
use cse_536_advanced_operati.Base.{
  ℕ, ◌≡◌, refl, ap, ◌∙◌, inl, inr, Bool, true, false, ◌||◌, Option, none, some, List, [], ◌∷◌, ◌==◌,
  Outcome, ret, ◌>>=◌, arith, Bool-cases, Option-cases, if_true,
}
use cse_536_advanced_operati.Log.State.{Block, put}
use cse_536_advanced_operati.Cache.{
  Buf, Cache, find_buf, update, recycle, or_here, new_buf, recycled, bget_found, bget, read_disk,
  bread, modify, bwrite, brelse,
}
use cse_536_advanced_operati.Cache.View.{view, IsCoherent}
use cse_536_advanced_operati.Cache.Bread.{HasRoom, IsRead, bread-IsRead}
use cse_536_advanced_operati.Cache.Write.{brelse-bwrite}

-- Whether some buffer has no user.
unfoldable pub has_free : List Buf → Bool
has_free [] = false
has_free (b ∷ bs) = let rest = has_free bs in (b.refcnt == 0) || rest

recycle_free :
    (new : Buf) (bs : List Buf) → has_free bs ≡ true → (cs : List Buf) × (recycle new bs ≡ some cs)
unfolding has_free recycle
recycle_free new [] h = absurd (cc)
recycle_free new (b ∷ bs) h = elim (Option-cases (recycle new bs)) [
  | inr (cs, e) ↦ (b ∷ cs, ap (or_here new b bs) e)
  | inl e ↦ elim (Bool-cases (b.refcnt == 0)) [
    | inl free ↦ (new ∷ bs, ap (or_here new b bs) e ∙ if_true (some (new ∷ bs)) none free)
    | inr busy ↦ let (cs, e') = recycle_free new bs (ground arith) in absurd (cc)
  ]
]

bget_free :
    (d y : ℕ) (o : Option Buf) (bs : List Buf)
    → has_free bs ≡ true
    → (cs : List Buf) × (bget_found o d y bs ≡ ret cs)
unfolding bget_found
bget_free d y none bs h = let (cs, e) = recycle_free (new_buf d y) bs h in (cs, ap recycled e)
bget_free d y (some b) bs h = (_, refl)

bread_free : (d y : ℕ) (c : Cache) → has_free c.bufs ≡ true → (c' : Cache) × (bread d y c ≡ ret c')
unfolding bread bget
bread_free d y c h =
    let (bs, e) = bget_free d y (find_buf d y c.bufs) c.bufs h in
    (
      _,
      ap
          (λ (o : Outcome (List Buf)).
            o >>= λ bs. ret (record c { bufs = update (read_disk c.disk) d y bs }))
          e,
    )

-- bread() of a block of the device, as long as some buffer has no user, returns a buffer with what
-- the cache showed of the block, shows every block as before, and keeps the cache coherent. The
-- block itself has less than 2 ^ 32 - 1 users.
pub bread_lem :
    (d y : ℕ) (c : Cache)
    → IsCoherent d c.disk c.bufs
    → HasRoom d y c.bufs
    → has_free c.bufs ≡ true
    → (c' : Cache) × (bread d y c ≡ ret c') × IsRead d y c c'
bread_lem d y c coherent room h =
    let (c', e) = bread_free d y c h in (c', e, bread-IsRead d y c c' coherent room e)

abbrev pub IsUpdate : ℕ → ℕ → Block → Cache → Cache → Type 0
IsUpdate d y contents c w =
    IsCoherent d w.disk w.bufs
    × (w.disk ≡ put c.disk y contents)
    × ((x : ℕ) → view d w.disk x w.bufs ≡ put (λ k. view d c.disk k c.bufs) y contents x)

-- As long as some buffer has no user, a block of the device can be read, changed, written and
-- released, and the disk and the view of the cache both have the new contents of that block, and
-- show every other block as before. The block itself has less than 2 ^ 32 - 1 users.
pub bwrite-bread :
    (d y : ℕ) (contents : Block) (c : Cache)
    → IsCoherent d c.disk c.bufs
    → HasRoom d y c.bufs
    → has_free c.bufs ≡ true
    → (c' : Cache) × (bread d y c ≡ ret c')
      × IsUpdate d y contents c (brelse d y (bwrite d y (modify contents d y c')))
bwrite-bread d y contents c coherent room h =
    let (c', e) = bread_free d y c h in (c', e, brelse-bwrite d y contents c c' coherent room e)
