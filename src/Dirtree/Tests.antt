-- ===== src/Dirtree/Tests.antt =====
-- The table of directories of FileSystem/src/dirtree.c on a small table.
use tp_2017_2c_yatpos.Base.{ℕ, ◌≡◌, refl, List, [], ◌∷◌, Option, none, some, arith}
use tp_2017_2c_yatpos.Base.Int.{pos, negsuc}
use tp_2017_2c_yatpos.Serial.Words.{Bytes}
use tp_2017_2c_yatpos.Dirtree.{
  Directory, bar, dir_exists, find_dir_by_name, create_normal_path, names_from, dirtree_add,
  dirtree_find, dirtree_size, dirtree_count, remove_directory,
}
use tp_2017_2c_yatpos.Dirtree.Find.{Extends, free}
use tp_2017_2c_yatpos.Dirtree.Add.{from_root, dirtree_find-add}

abbrev root : Directory
root = record { name = bar ∷ []; parent = negsuc 0 }

abbrev unused : Directory
unused = record { name = []; parent = negsuc 1 }

abbrev table : List Directory
table = root ∷ unused ∷ unused ∷ unused ∷ []

abbrev name_a : Bytes
name_a = b'a' ∷ []

abbrev name_b : Bytes
name_b = b'b' ∷ []

-- What follows "yamafs:/" in "yamafs:/a/b", and "/a/b/"
abbrev path_ab : Bytes
path_ab = b'a' ∷ bar ∷ b'b' ∷ []

abbrev normal_ab : Bytes
normal_ab = bar ∷ b'a' ∷ bar ∷ b'b' ∷ bar ∷ []

abbrev with_ab : List Directory
with_ab =
    root
    ∷ record { name = name_a; parent = pos 0 }
    ∷ record { name = name_b; parent = pos 1 }
    ∷ unused
    ∷ []

added_ab : dirtree_add (from_root path_ab) table ≡ some (some 2, with_ab)
unfolding dirtree_add
added_ab = refl

counted_a : dirtree_count (bar ∷ b'a' ∷ bar ∷ []) with_ab ≡ 1
unfolding dirtree_count
counted_a = refl

-- What is added by "./a" is "." and "a" in it, and "./a" is looked for as "/a".
abbrev dot_a : Bytes
dot_a = b'.' ∷ bar ∷ b'a' ∷ []

lost_dot :
    ◌≡◌ {A = Option ℕ}
      (elim (dirtree_add dot_a table) [ none ↦ some 0 | some r ↦ dirtree_find dot_a r.1 ])
      none
unfolding dirtree_add dirtree_find
lost_dot = refl

smaller : dirtree_size (remove_directory 2 with_ab) ≡ 2
unfolding dirtree_size remove_directory
smaller = refl

dirtree_find-add_example :
    (found : Option ℕ) × (dirs' : List Directory) × (dirtree_add (from_root path_ab) table
      ≡ some (found, dirs'))
    × (dirtree_find (from_root path_ab) dirs' ≡ found)
    × Extends table dirs'
unfolding create_normal_path names_from dir_exists find_dir_by_name free
dirtree_find-add_example =
    dirtree_find-add (from_root path_ab) path_ab normal_ab name_a (name_b ∷ []) table unused root
      refl (omega arith) refl refl refl refl refl refl refl refl (omega arith, (omega arith, tt))
      (omega arith)
