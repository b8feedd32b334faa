-- ===== src/Bitmap/Tests.antt =====
-- A bit array by functions, and a bitmap of ten bits.
use tp_2017_2c_yatpos.Base.{ℕ, suc, ◌<◌, ◌≡◌, refl, true, false, not, some, arith}
use tp_2017_2c_yatpos.Bitmap.Functions.{functions, malloced}
use tp_2017_2c_yatpos.Bitmap.{
  Bitmap, bitmap_create, bitmap_set, bitmap_unset, bitmap_test, bitmap_firstzero,
}
use tp_2017_2c_yatpos.Bitmap.First.{IsFirst, bitmap_firstzero-IsFirst}
use tp_2017_2c_yatpos.Bitmap.Used.{IsBitmap, free_blocks, clear_bits, bitmap_set-firstzero}

abbrev taken : Bitmap functions
taken = bitmap_set functions (bitmap_set functions (bitmap_create functions (malloced 2) 10) 0) 2

taken_first : bitmap_firstzero functions taken ≡ some 1
unfolding bitmap_firstzero bitmap_create bitmap_set
taken_first = refl

bitmap_firstzero-IsFirst_example :
    IsFirst functions not taken 0 taken.size (bitmap_firstzero functions taken)
bitmap_firstzero-IsFirst_example = bitmap_firstzero-IsFirst functions taken

taken-IsBitmap : IsBitmap functions taken
unfolding bitmap_create bitmap_set
taken-IsBitmap = omega arith

taken_free : 0 < free_blocks functions taken
unfolding bitmap_create bitmap_set clear_bits
taken_free = omega arith

bitmap_set-firstzero_example :
    (k : ℕ) × (bitmap_firstzero functions taken ≡ some k)
    × (bitmap_test functions taken k ≡ false)
    × (bitmap_test functions (bitmap_set functions taken k) k ≡ true)
    × IsBitmap functions (bitmap_set functions taken k)
    × (free_blocks functions taken ≡ suc (free_blocks functions (bitmap_set functions taken k)))
    × (free_blocks functions (bitmap_unset functions (bitmap_set functions taken k) k)
        ≡ free_blocks functions taken)
bitmap_set-firstzero_example = bitmap_set-firstzero functions taken taken-IsBitmap taken_free
