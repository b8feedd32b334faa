-- ===== src/Mlist/Tests.antt =====
-- The lists of Shared/mlist.c on concrete lists.
use tp_2017_2c_yatpos.Base.{
  ℕ, ◌≡◌, refl, List, [], ◌∷◌, true, false, some, leb, ◌==◌, arith, get_elem?, take,
}
use mathlib.Core.List.{Perm}
use tp_2017_2c_yatpos.Mlist.{
  mlist_index, mlist_find, mlist_filter, mlist_remove, mlist_count, mlist_sort, mlist_rsort,
  mlist_extend,
}
use tp_2017_2c_yatpos.Mlist.Search.{mlist_index-find}
use tp_2017_2c_yatpos.Mlist.Sort.{IsSorted, mlist_sort-IsSorted, mlist_rsort-IsSorted}

abbrev five : List ℕ
five = 3 ∷ 1 ∷ 5 ∷ 1 ∷ 4 ∷ []

sorted_five : mlist_sort leb five ≡ 1 ∷ 1 ∷ 3 ∷ 4 ∷ 5 ∷ []
unfolding mlist_sort
sorted_five = refl

removed_ones : mlist_remove (λ n. n == 1) five ≡ (3 ∷ 5 ∷ 4 ∷ [], some 1)
unfolding mlist_remove
removed_ones = refl

counted_ones : mlist_count (λ n. n == 1) five ≡ 2
unfolding mlist_count
counted_ones = refl

extended : mlist_extend {A = ℕ} (1 ∷ []) (2 ∷ 3 ∷ []) ≡ 1 ∷ 2 ∷ 3 ∷ []
unfolding mlist_extend
extended = refl

leb_trans : (x y z : ℕ) → leb x y ≡ true → leb y z ≡ true → leb x z ≡ true
leb_trans x y z p q = ground arith

leb_total : (x y : ℕ) → leb x y ≡ false → leb y x ≡ true
leb_total x y p = ground arith

mlist_sort-IsSorted_example :
    IsSorted (λ x y. leb x y ≡ true) (mlist_sort leb five) × Perm (mlist_sort leb five) five
mlist_sort-IsSorted_example = mlist_sort-IsSorted leb five leb_trans leb_total

mlist_rsort-IsSorted_example :
    IsSorted (λ x y. leb y x ≡ true) (mlist_rsort leb five) × Perm (mlist_rsort leb five) five
mlist_rsort-IsSorted_example = mlist_rsort-IsSorted leb five leb_trans leb_total

mlist_index-find_example :
    (x : ℕ) × (get_elem? five 1 ≡ some x)
    × ((x == 1) ≡ true)
    × (mlist_find (λ n. n == 1) five ≡ some x)
    × (mlist_filter (λ n. n == 1) (take 1 five) ≡ [])
unfolding mlist_index
mlist_index-find_example = mlist_index-find (λ n. n == 1) five 1 refl
