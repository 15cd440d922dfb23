-- ===== src/Cache/Tests.antt =====
-- Project-2, kernel/bio.c: a small cache, and the theorems at inputs where their hypotheses hold.
use cse_536_advanced_operati.Base.{ℕ, ◌≡◌, refl, ap, true, Option, none, some, [], ◌∷◌, ret, arith}
use cse_536_advanced_operati.Log.State.{Block}
use cse_536_advanced_operati.Cache.{Buf, Cache, empty_buf, find_buf, bread, modify, bwrite, brelse}
use cse_536_advanced_operati.Cache.View.{IsCoherent}
use cse_536_advanced_operati.Cache.Bread.{HasRoom, IsRead}
use cse_536_advanced_operati.Cache.Free.{has_free, bread_lem, IsUpdate, bwrite-bread}

abbrev numbered : ℕ → Block
numbered b w = b

-- Block 5 is in a buffer without users; the other buffer is free.
abbrev two_bufs : Cache
two_bufs = record {
  bufs = record { valid = true; dev = 1; blockno = 5; refcnt = 0; bytes = λ w. 5 } ∷ empty_buf ∷ [];
  disk = numbered;
}

two_bufs-IsCoherent : IsCoherent 1 two_bufs.disk two_bufs.bufs
unfolding find_buf
two_bufs-IsCoherent = (
  record { own = λ v. refl; clean = λ v z. refl },
  (λ e. refl),
  (record { own = λ v. absurd (cc); clean = λ v. absurd (cc) }, (λ e. absurd (omega arith)), tt),
)

sixth-HasRoom : HasRoom 1 6 two_bufs.bufs
unfolding find_buf
sixth-HasRoom b e = absurd (cc)

fifth-HasRoom : HasRoom 1 5 two_bufs.bufs
unfolding find_buf
fifth-HasRoom b e = let n = ap (λ (o : Option Buf). count o) e in omega arith
  where
    count : Option Buf → ℕ
    count none = 0
    count (some b) = b.refcnt

two_bufs-has_free : has_free two_bufs.bufs ≡ true
unfolding has_free
two_bufs-has_free = refl

bread_lem_example : (c : Cache) × (bread 1 6 two_bufs ≡ ret c) × IsRead 1 6 two_bufs c
bread_lem_example = bread_lem 1 6 two_bufs two_bufs-IsCoherent sixth-HasRoom two_bufs-has_free

bwrite-bread_example :
    (c : Cache) × (bread 1 5 two_bufs ≡ ret c)
    × IsUpdate 1 5 (λ w. 9) two_bufs (brelse 1 5 (bwrite 1 5 (modify (λ w. 9) 1 5 c)))
bwrite-bread_example =
    bwrite-bread 1 5 (λ w. 9) two_bufs two_bufs-IsCoherent fifth-HasRoom two_bufs-has_free
