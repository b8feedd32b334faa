-- ===== src/Merge/Order.antt =====
-- The order of lines by `strcmp` (Shared/mstring.c).
use tp_2017_2c_yatpos.Base.{◌≡◌, refl, [], ◌∷◌, true, false, arith}
use tp_2017_2c_yatpos.Serial.Words.{Bytes}
use tp_2017_2c_yatpos.Merge.{mstring_asc}

pub mstring_asc_trans :
    (xs ys zs : Bytes)
    → mstring_asc xs ys ≡ true
    → mstring_asc ys zs ≡ true
    → mstring_asc xs zs ≡ true
unfolding mstring_asc
mstring_asc_trans [] ys zs p q = refl
mstring_asc_trans (x ∷ xs) [] zs p q = cc
mstring_asc_trans (x ∷ xs) (y ∷ ys) [] p q = cc
mstring_asc_trans (x ∷ xs) (y ∷ ys) (z ∷ zs) p q = ground (arith, mstring_asc_trans xs ys zs)

pub mstring_asc_total : (xs ys : Bytes) → mstring_asc xs ys ≡ false → mstring_asc ys xs ≡ true
unfolding mstring_asc
mstring_asc_total [] ys p = cc
mstring_asc_total (x ∷ xs) [] p = refl
mstring_asc_total (x ∷ xs) (y ∷ ys) p = ground (arith, mstring_asc_total xs ys)

pub mstring_asc_antisymm :
    (xs ys : Bytes) → mstring_asc xs ys ≡ true → mstring_asc ys xs ≡ true → xs ≡ ys
unfolding mstring_asc
mstring_asc_antisymm [] [] p q = refl
mstring_asc_antisymm [] (y ∷ ys) p q = cc
mstring_asc_antisymm (x ∷ xs) [] p q = cc
mstring_asc_antisymm (x ∷ xs) (y ∷ ys) p q = ground (arith, mstring_asc_antisymm xs ys)
