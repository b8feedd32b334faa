-- ===== src/Merge/Tests.antt =====
-- Merging on concrete files (Shared/path.c).
use tp_2017_2c_yatpos.Base.{ℕ, ◌+◌, ◌≡◌, refl, arith, List, [], ◌∷◌, Option, some, none, All}
use mathlib.Core.List.{Perm}
use tp_2017_2c_yatpos.Serial.Words.{Bytes}
use tp_2017_2c_yatpos.Mlist.{mlist_sort}
use tp_2017_2c_yatpos.Merge.{mstring_asc, path_merge}
use tp_2017_2c_yatpos.Merge.Lines.{file_lines}
use tp_2017_2c_yatpos.Merge.Pending.{InOrder}
use tp_2017_2c_yatpos.Merge.Whole.{all_lines, path_merge-perm, path_merge-sort}

-- Lines "b" and "d", a directory, and "a", "c" and "e", whose end is missing.
abbrev three : List (Option Bytes)
three = some (98 ∷ 10 ∷ 100 ∷ 10 ∷ []) ∷ none ∷ some (97 ∷ 10 ∷ 99 ∷ 10 ∷ 101 ∷ []) ∷ []

-- An allocator that gives at least twelve bytes.
abbrev usable : ℕ → ℕ
usable n = n + 12

-- One that gives no more than was asked for.
three_overrun : path_merge (λ n. n) three ≡ none
unfolding path_merge
three_overrun = refl

three_merged :
    path_merge usable three ≡ some (97 ∷ 10 ∷ 98 ∷ 10 ∷ 99 ∷ 10 ∷ 100 ∷ 10 ∷ 101 ∷ 10 ∷ [])
unfolding path_merge
three_merged = refl

in_order : All (λ s. InOrder (file_lines s)) three
unfolding file_lines mstring_asc
in_order = (((refl, tt), (tt, tt)), (tt, (((refl, (refl, tt)), ((refl, tt), (tt, tt))), tt)))

path_merge-perm_example :
    (target : Bytes) × (path_merge usable three ≡ some target)
    × Perm (file_lines (some target)) (all_lines three)
path_merge-perm_example = path_merge-perm usable three (omega arith)

path_merge-sort_example :
    (target : Bytes) × (path_merge usable three ≡ some target)
    × (file_lines (some target) ≡ mlist_sort mstring_asc (all_lines three))
path_merge-sort_example = path_merge-sort usable three (omega arith) in_order
