-- ===== src/Dirtree.antt =====
-- FileSystem/src/dirtree.c: the table of directories, an array of MAX_SIZE entries in which a directory
-- has the index of its place and the index of its parent.
-- The directories that are made and removed on the disk
-- (`path_mkdir`, `path_remove`) and the file of the table (`save_to_file`) are not here. `none` is a read
-- through NULL or a write outside an array.
pub mod Find
pub mod Add
mod Tests
use tp_2017_2c_yatpos.Base.{
  ℕ, zero, suc, ◌+◌, ◌-◌, List, [], ◌∷◌, ◌++◌, map, Bool, true, false, not, ◌&&◌, Option, none,
  some, length, get_elem?, set, drop, take, ltb, leb, ◌==◌, if◌then◌else◌, eq_bytes,
}
use tp_2017_2c_yatpos.Base.Int.{ℤ, pos, negsuc, eq_ℤ, leb_ℤ}
use tp_2017_2c_yatpos.Serial.Words.{Bytes}
use tp_2017_2c_yatpos.Mlist.{mlist_index, mlist_count}

-- `t_directory`, without its index, which is its place in the table.
pub record Directory : Type 0 where
  pub name : Bytes
  pub parent : ℤ

unfoldable pub dir_exists : Directory → Bool
dir_exists d = leb_ℤ (negsuc 0) d.parent

unfoldable pub find_dir_by_name : Bytes → ℤ → List Directory → Option ℕ
unfolding dir_exists mlist_index
find_dir_by_name name parent dirs =
    mlist_index (λ d. dir_exists d && (eq_bytes d.name name && eq_ℤ d.parent parent)) dirs

unfoldable pub dirtree_size : List Directory → ℕ
unfolding dir_exists mlist_count
dirtree_size dirs = mlist_count dir_exists dirs

-- The first free entry, into which the name is copied: 255 bytes.
unfoldable pub add_directory : Bytes → ℤ → List Directory → Option (ℕ × List Directory)
unfolding find_dir_by_name dir_exists mlist_index
add_directory name parent dirs = elim (find_dir_by_name name parent dirs) [
  | some i ↦ some (i, dirs)
  | none ↦ elim (mlist_index (λ d. not (dir_exists d)) dirs) [
    | none ↦ none
    | some i ↦
        if ltb (length name) 255
        then some (i, set dirs i (record { name = name; parent = parent }))
        else none
  ]
]

-- "/" and "yamafs:"
abbrev pub bar : ℕ
bar = b'/'

abbrev pub pref : Bytes
pref = b'y' ∷ b'a' ∷ b'm' ∷ b'a' ∷ b'f' ∷ b's' ∷ b':' ∷ []

abbrev pub first_is_bar : Bytes → Bool
first_is_bar [] = false
first_is_bar (c ∷ cs) = c == bar

-- `p[strlen(p) - 1] == '/'`, for a text that is not empty.
unfoldable pub last_is_bar : Bytes → Bool
last_is_bar [] = false
last_is_bar (c ∷ []) = c == bar
last_is_bar (c ∷ d ∷ cs) = last_is_bar (d ∷ cs)

-- `mstring_hasprefix`
unfoldable pub hasprefix : Bytes → Bytes → Bool
hasprefix text [] = true
hasprefix [] (c ∷ cs) = false
hasprefix (d ∷ text) (c ∷ cs) = c == d && hasprefix text cs

-- `create_format_template`: MSTRING_MAXSIZE bytes with the NUL at the end.
unfoldable pub create_format_template : Bytes → Bytes
create_format_template text = take 1023 text

unfoldable pub mstring_index : Bytes → Bytes → Option ℕ
unfolding hasprefix
mstring_index [] sub = if hasprefix [] sub then some 0 else none
mstring_index (c ∷ cs) sub =
    let later = mstring_index cs sub in
    if hasprefix (c ∷ cs) sub then some 0 else elim later [ none ↦ none | some i ↦ some (suc i) ]

-- The first occurrence only.
unfoldable pub mstring_replace : (text sub replacement : Bytes) → Bytes
unfolding mstring_index create_format_template
mstring_replace text sub replacement = elim (mstring_index text sub) [
  | none ↦ text
  | some i ↦
      create_format_template
        (create_format_template (take i text) ++ (replacement ++ drop (i + length sub) text))
]

-- `path_create(PTYPE_YAMA, path)`, of one path.
unfoldable pub path_create : Bytes → Bytes
unfolding mstring_replace hasprefix create_format_template
path_create root =
    let path = mstring_replace root pref [] in
    let inside =
      if hasprefix path (b'.' ∷ bar ∷ []) then create_format_template (drop 2 path) else path in
    let absolute = if first_is_bar inside then inside else create_format_template (bar ∷ inside) in
    create_format_template (pref ++ absolute)

-- What is printed of `p`, which stands behind ':' when it is empty.
unfoldable pub with_bars : Bytes → Bytes
unfolding last_is_bar create_format_template
with_bars p =
    create_format_template
      ((if first_is_bar p then [] else bar ∷ []) ++ (p ++ (if last_is_bar p then [] else bar ∷ [])))

-- An empty path is read before its start.
unfoldable pub create_normal_path : Bytes → Option Bytes
unfolding hasprefix with_bars
create_normal_path path =
    if hasprefix path pref
    then some (with_bars (drop (length pref) path))
    else if length path == 0
    then none
    else some (with_bars path)

-- The names of a path that end at a bar; `name` is what was read of the current one.
unfoldable pub names_from : (name : Bytes) → Bytes → List Bytes
names_from name [] = []
names_from name (c ∷ cs) =
    let ended = name ∷ names_from [] cs in
    let longer = names_from (name ++ c ∷ []) cs in if c == bar then ended else longer

-- The loop of `dirtree_add` over the names; `last` is `dir`.
unfoldable pub add_names :
    List Bytes
    → (par_name : Bytes) → (par_parent : ℤ) → (last : Option ℕ) → List Directory
    → Option (Option ℕ × List Directory)
unfolding find_dir_by_name add_directory
add_names [] par_name par_parent last dirs = some (last, dirs)
add_names (name ∷ names) par_name par_parent last dirs =
    elim (find_dir_by_name par_name par_parent dirs) [
      | none ↦ none
      | some k ↦ elim (add_directory name (pos k) dirs) [
        | none ↦ none
        | some (i, dirs') ↦ add_names names name (pos k) (some i) dirs'
      ]
    ]

-- The loop of `dirtree_find`, whose first name is that of the root.
unfoldable pub find_names : List Bytes → (par : ℤ) → (found : Option ℕ) → List Directory → Option ℕ
unfolding find_dir_by_name
find_names [] par found dirs = found
find_names (name ∷ names) par found dirs = elim (find_dir_by_name name par dirs) [
  | none ↦ none
  | some k ↦ find_names names (pos k) (some k) dirs
]

-- `children_of_dir`: the indices from `i` on of the directories with the parent.
unfoldable pub children_of_dir : ℤ → ℕ → List Directory → List ℕ
unfolding dir_exists
children_of_dir parent i [] = []
children_of_dir parent i (d ∷ dirs) =
    let rest = children_of_dir parent (suc i) dirs in
    if dir_exists d && eq_ℤ d.parent parent then i ∷ rest else rest

-- `remove_directory`, which leaves the root.
unfoldable pub remove_directory : ℕ → List Directory → List Directory
remove_directory zero dirs = dirs
remove_directory (suc i) dirs = elim (get_elem? dirs (suc i)) [
  | none ↦ dirs
  | some d ↦ set dirs (suc i) (record d { parent = negsuc 1 })
]

-- The full table is one whose last entry is used. `none` inside is the NULL that is returned.
unfoldable pub dirtree_add : Bytes → List Directory → Option (Option ℕ × List Directory)
unfolding add_names names_from dir_exists create_normal_path
dirtree_add path dirs = elim (get_elem? dirs (length dirs - 1)) [
  | none ↦ none
  | some d ↦ if dir_exists d then some (none, dirs) else elim (get_elem? dirs 0) [
    | none ↦ none
    | some root ↦
        if eq_bytes path root.name then some (some 0, dirs) else elim (create_normal_path path) [
          | none ↦ none
          | some npath ↦ add_names (names_from [] (drop 1 npath)) root.name root.parent none dirs
        ]
  ]
]

-- `path_create` never gives an empty path, which has no normal one.
unfoldable pub dirtree_find : Bytes → List Directory → Option ℕ
unfolding find_names names_from path_create create_normal_path
dirtree_find path dirs = elim (create_normal_path (path_create path)) [
  | none ↦ none
  | some npath ↦ elim (get_elem? dirs 0) [
    | none ↦ none
    | some root ↦ find_names (root.name ∷ names_from [] (drop 1 npath)) root.parent none dirs
  ]
]

unfoldable pub dirtree_count : Bytes → List Directory → ℕ
unfolding dirtree_find children_of_dir
dirtree_count path dirs = elim (dirtree_find path dirs) [
  | none ↦ 0
  | some i ↦ length (children_of_dir (pos i) 0 dirs)
]
